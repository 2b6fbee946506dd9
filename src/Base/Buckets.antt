-- ===== src/Base/Buckets.antt =====
-- A storage bucket: an association list in ascending order of its keys. A key stands for a byte
-- string of the bucket's fixed key length, read as a number, so the orders agree.
use Prim.Native.Nat.{ℕ}
use mathlib.Core.Path.{◌≡◌}
use mathlib.Core.Bool.{Bool, true, ◌&&◌}
use mathlib.Core.Option.{Option, none, some}
use mathlib.Core.List.{List, [], ◌∷◌}
use native.Mathlib.Omega.{arith}
use anchor_token_contracts.Base.Tests.{ltb, leb, ◌==◌, if◌then◌else◌}
use anchor_token_contracts.Base.Lists.{keep_if}
use anchor_token_contracts.Base.Results.{Result, not_found, ok_or}

abbrev pub Bucket {ℓ} : Type ℓ → Type ℓ
Bucket V = List (ℕ × V)

-- A bound of a range: a key, and whether a byte is appended to it.
pub record Bound : Type 0 where
  pub key : ℕ
  pub appended : Bool

abbrev pub at_or_after : Option Bound → ℕ → Bool
at_or_after none k = true
at_or_after (some b) k = if b.appended then ltb b.key k else leb b.key k

abbrev pub before : Option Bound → ℕ → Bool
before none k = true
before (some b) k = if b.appended then leb k b.key else ltb k b.key

module _ {ℓ} {V : Type ℓ} where
  unfoldable pub may_load : ℕ → Bucket V → Option V
  may_load k [] = none
  may_load k ((j, v) ∷ b) = if k == j then some v else may_load k b

  unfoldable pub save : ℕ → V → Bucket V → Bucket V
  save k v [] = (k, v) ∷ []
  save k v ((j, w) ∷ b) =
      if ltb k j then (k, v) ∷ (j, w) ∷ b else (if k == j then (k, v) ∷ b else (j, w) ∷ save k v b)

  unfoldable pub remove : ℕ → Bucket V → Bucket V
  remove k [] = []
  remove k ((j, w) ∷ b) = let rest = remove k b in if k == j then rest else (j, w) ∷ rest

  -- Ascending from `start` (included) to `end` (excluded).
  unfoldable pub range : Option Bound → Option Bound → Bucket V → Bucket V
  range start end b = keep_if (λ e. at_or_after start e.0 && before end e.0) b

  pub may_load-save :
      (k j : ℕ) (v : V) (b : Bucket V)
      → may_load j (save k v b) ≡ (if k == j then some v else may_load j b)
  unfolding may_load save
  may_load-save k j v [] = ground arith
  may_load-save k j v ((i, w) ∷ b) = ground (arith, may_load-save k j v b)

  pub may_load-remove :
      (k j : ℕ) (b : Bucket V) → may_load j (remove k b) ≡ (if k == j then none else may_load j b)
  unfolding may_load remove
  may_load-remove k j [] = ground arith
  may_load-remove k j ((i, w) ∷ b) = ground (arith, may_load-remove k j b)

abbrev pub load {ℓ} : {V : Type ℓ} → ℕ → Bucket V → Result V
load k b = ok_or (may_load k b) not_found
