-- ===== src/Paging/Entries.antt =====
-- The entries of a page: which they are, and how many.
use anchor_token_contracts.Base.{
  ℕ, ◌≢◌, ◌≡◌, refl, ap, ◌∙◌, Bool, true, Option, none, some, [], ◌∷◌, arith, All, All-take,
  All-keep_if, All-reverse, keep_if, keep_if-All, length, length-take-min, length-reverse, min,
  take, reverse, unwrap_or, ltb, if◌then◌else◌, ◌+◌,
}
use anchor_token_contracts.Base.Buckets.{Bucket, Bound, may_load, range}
use anchor_token_contracts.Cosmwasm.{OrderBy, asc, desc}
use anchor_token_contracts.Paging.{page, page_size, calc_range_start, calc_range_end}

-- The key comes after the start: it is greater in ascending order, else less.
abbrev pub is_past : Option OrderBy → Option ℕ → ℕ → Bool
is_past order_by none k = true
is_past (some asc) (some start) k = ltb start k
is_past (some desc) (some start) k = ltb k start
is_past none (some start) k = ltb k start

module _ {ℓ} {V : Type ℓ} where
  -- How many keys of a bucket come after the start.
  abbrev pub count_past : Option OrderBy → Option ℕ → Bucket V → ℕ
  count_past order_by start [] = 0
  count_past order_by start ((k, v) ∷ b) =
      (if is_past order_by start k then 1 else 0) + count_past order_by start b

  length-past :
      (order_by : Option OrderBy) (start : Option ℕ) (b : Bucket V)
      → length (keep_if (λ e. is_past order_by start e.0) b) ≡ count_past order_by start b
  length-past order_by start [] = refl
  length-past order_by start ((k, v) ∷ b) = ground (arith, length-past order_by start b)

  range-asc :
      (start : Option ℕ) (b : Bucket V)
      → range (calc_range_start start) none b ≡ keep_if (λ e. is_past (some asc) start e.0) b
  unfolding range
  range-asc none [] = refl
  range-asc (some i) [] = refl
  range-asc none ((k, v) ∷ b) = ground (arith, range-asc none b)
  range-asc (some i) ((k, v) ∷ b) = ground (arith, range-asc (some i) b)

  range-desc :
      (start : Option ℕ) (b : Bucket V)
      → range none (calc_range_end start) b ≡ keep_if (λ e. is_past none start e.0) b
  unfolding range
  range-desc none [] = refl
  range-desc (some i) [] = refl
  range-desc none ((k, v) ∷ b) = ground (arith, range-desc none b)
  range-desc (some i) ((k, v) ∷ b) = ground (arith, range-desc (some i) b)

  -- The entries that a page may show, in its order.
  abbrev candidates : Option OrderBy → Option ℕ → Bucket V → Bucket V
  candidates (some asc) start b = keep_if (λ e. is_past (some asc) start e.0) b
  candidates (some desc) start b = reverse (keep_if (λ e. is_past none start e.0) b)
  candidates none start b = reverse (keep_if (λ e. is_past none start e.0) b)

  page-candidates :
      (order_by : Option OrderBy) (start limit : Option ℕ) (b : Bucket V)
      → page b start limit order_by
        ≡ take (min (unwrap_or limit 10) 30) (candidates order_by start b)
  unfolding page
  page-candidates (some asc) start limit b = rw (range-asc start b) refl
  page-candidates (some desc) start limit b = rw (range-desc start b) refl
  page-candidates none start limit b = rw (range-desc start b) refl

  length-candidates :
      (order_by : Option OrderBy) (start : Option ℕ) (b : Bucket V)
      → length (candidates order_by start b) ≡ count_past order_by start b
  length-candidates (some asc) start b = length-past (some asc) start b
  length-candidates (some desc) none b = length-reverse _ ∙ length-past (some desc) none b
  length-candidates (some desc) (some i) b = length-reverse _ ∙ length-past (some desc) (some i) b
  length-candidates none start b = length-reverse _ ∙ length-past none start b

  candidates-past :
      (order_by : Option OrderBy) (start : Option ℕ) (b : Bucket V)
      → All (λ e. is_past order_by start e.0 ≡ true) (candidates order_by start b)
  candidates-past (some asc) start b = keep_if-All (λ e. is_past (some asc) start e.0) b
  candidates-past (some desc) none b =
      All-reverse _ _ (keep_if-All (λ e. is_past (some desc) none e.0) b)
  candidates-past (some desc) (some i) b =
      All-reverse _ _ (keep_if-All (λ e. is_past (some desc) (some i) e.0) b)
  candidates-past none start b = All-reverse _ _ (keep_if-All (λ e. is_past none start e.0) b)

  -- A page has at most the entries that its limit allows, and no fewer than there are.
  pub length-page :
      (order_by : Option OrderBy) (start limit : Option ℕ) (b : Bucket V)
      → length (page b start limit order_by)
        ≡ min (min (unwrap_or limit 10) 30) (count_past order_by start b)
  length-page order_by start limit b = rw (page-candidates order_by start limit b) (
      length-take-min (min (unwrap_or limit 10) 30) (candidates order_by start b)
      ∙ ap (min (min (unwrap_or limit 10) 30)) (length-candidates order_by start b))

  pub page-past :
      (order_by : Option OrderBy) (start limit : Option ℕ) (b : Bucket V)
      → All (λ e. is_past order_by start e.0 ≡ true) (page b start limit order_by)
  page-past order_by start limit b =
      rw (page-candidates order_by start limit b)
        (All-take _ (min (unwrap_or limit 10) 30) _ (candidates-past order_by start b))

  -- The entry's key is a key of the bucket.
  abbrev pub Has : Bucket V → ℕ × V → Type ℓ
  Has b e = may_load e.0 b ≢ none

  Has-cons : (e : ℕ × V) (b l : Bucket V) → All (Has b) l → All (Has (e ∷ b)) l
  unfolding may_load
  Has-cons e b [] h = tt
  Has-cons e b (x ∷ l) h = (ground (arith, h.0), Has-cons e b l h.1)

  Has-All : (b : Bucket V) → All (Has b) b
  unfolding may_load
  Has-All [] = tt
  Has-All ((k, v) ∷ b) = (ground arith, Has-cons (k, v) b b (Has-All b))

  Has-range : (lo hi : Option Bound) (b : Bucket V) → All (Has b) (range lo hi b)
  unfolding range
  Has-range lo hi b = All-keep_if (Has b) _ b (Has-All b)

  pub Has-page :
      (b : Bucket V) (start_after limit : Option ℕ) (order_by : Option OrderBy)
      → All (Has b) (page b start_after limit order_by)
  unfolding page
  Has-page b start_after limit (some asc) =
      All-take (Has b) (page_size limit) _ (Has-range _ none b)
  Has-page b start_after limit (some desc) =
      All-take (Has b) (page_size limit) _ (All-reverse (Has b) _ (Has-range none _ b))
  Has-page b start_after limit none =
      All-take (Has b) (page_size limit) _ (All-reverse (Has b) _ (Has-range none _ b))
