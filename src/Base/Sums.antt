-- ===== src/Base/Sums.antt =====
-- Buckets in ascending order of their keys, and the sum of a number over the entries.
use Prim.Native.Nat.{ℕ, ◌+◌, ◌≤◌, ◌<◌}
use mathlib.Core.Path.{◌≡◌, refl}
use mathlib.Core.Option.{Option, none, some}
use mathlib.Core.List.{[], ◌∷◌}
use native.Mathlib.Omega.{arith}
use anchor_token_contracts.Base.Buckets.{Bucket, may_load, save, remove}

module _ {ℓ} {V : Type ℓ} where
  abbrev pub Above : ℕ → Bucket V → Type 0
  Above k [] = Unit
  Above k ((j, v) ∷ b) = (k < j) × Above k b

  abbrev pub Ascending : Bucket V → Type 0
  Ascending [] = Unit
  Ascending ((k, v) ∷ b) = Above k b × Ascending b

  abbrev pub sum_by : (V → ℕ) → Bucket V → ℕ
  sum_by f [] = 0
  sum_by f ((k, v) ∷ b) = f v + sum_by f b

  -- A missing entry counts for nothing.
  abbrev pub weight : (V → ℕ) → Option V → ℕ
  weight f none = 0
  weight f (some v) = f v

  pub Above-trans : (i k : ℕ) (b : Bucket V) → i < k → Above k b → Above i b
  Above-trans i k [] h a = tt
  Above-trans i k ((j, v) ∷ b) h a = (omega arith, Above-trans i k b h a.1)

  Above-save : (i k : ℕ) (v : V) (b : Bucket V) → i < k → Above i b → Above i (save k v b)
  unfolding save
  Above-save i k v [] h a = (h, tt)
  Above-save i k v ((j, w) ∷ b) h a = ground (arith, Above-save i k v b h a.1)

  Above-remove : (i k : ℕ) (b : Bucket V) → Above i b → Above i (remove k b)
  unfolding remove
  Above-remove i k [] a = tt
  Above-remove i k ((j, w) ∷ b) a = ground (arith, Above-remove i k b a.1)

  pub may_load-Above : (j k : ℕ) (b : Bucket V) → Above k b → j ≤ k → may_load j b ≡ none
  unfolding may_load
  may_load-Above j k [] a h = refl
  may_load-Above j k ((i, w) ∷ b) a h = ground (arith, may_load-Above j k b a.1 h)

  pub save-Ascending : (k : ℕ) (v : V) (b : Bucket V) → Ascending b → Ascending (save k v b)
  unfolding save
  save-Ascending k v [] a = (tt, tt)
  save-Ascending k v ((j, w) ∷ b) a =
      ground (arith, save-Ascending k v b a.1, Above-save j k v b, Above-trans k j b)

  pub remove-Ascending : (k : ℕ) (b : Bucket V) → Ascending b → Ascending (remove k b)
  unfolding remove
  remove-Ascending k [] a = tt
  remove-Ascending k ((j, w) ∷ b) a =
      ground (arith, remove-Ascending k b a.1, Above-remove j k b a.0)

  pub sum_by-save :
      (f : V → ℕ) (k : ℕ) (v : V) (b : Bucket V)
      → Ascending b
      → sum_by f (save k v b) + weight f (may_load k b) ≡ sum_by f b + f v
  unfolding save may_load
  sum_by-save f k v [] a = omega arith
  sum_by-save f k v ((j, w) ∷ b) a =
      ground (arith, sum_by-save f k v b a.1, may_load-Above k j b a.0)

  sum_by-remove-Above :
      (f : V → ℕ) (j k : ℕ) (b : Bucket V) → Above j b → k ≤ j → sum_by f (remove k b) ≡ sum_by f b
  unfolding remove
  sum_by-remove-Above f j k [] a h = refl
  sum_by-remove-Above f j k ((i, w) ∷ b) a h = ground (arith, sum_by-remove-Above f j k b a.1 h)

  pub sum_by-remove :
      (f : V → ℕ) (k : ℕ) (b : Bucket V)
      → Ascending b
      → sum_by f (remove k b) + weight f (may_load k b) ≡ sum_by f b
  unfolding remove may_load
  sum_by-remove f k [] a = refl
  sum_by-remove f k ((j, w) ∷ b) a =
      ground (arith, sum_by-remove f k b a.1, sum_by-remove-Above f j k b a.0)

  -- An entry counts for no more than the sum.
  pub weight-le-sum_by : (f : V → ℕ) (k : ℕ) (b : Bucket V) → weight f (may_load k b) ≤ sum_by f b
  unfolding may_load
  weight-le-sum_by f k [] = omega arith
  weight-le-sum_by f k ((j, w) ∷ b) = ground (arith, weight-le-sum_by f k b)
