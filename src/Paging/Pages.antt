-- ===== src/Paging/Pages.antt =====
-- How the ascending pages of a bucket follow one another.
use anchor_token_contracts.Base.{
  ℕ, zero, suc, ◌<◌, ◌≡◌, ◌∙◌, ap, sym, refl, true, Option, none, some, [], ◌∷◌, arith, subst, take,
  get_elem?, min, unwrap_or,
}
use anchor_token_contracts.Base.Buckets.{Bucket, range, at_or_after}
use anchor_token_contracts.Base.Sums.{Ascending, Above}
use anchor_token_contracts.Cosmwasm.{asc}
use anchor_token_contracts.Paging.{page, calc_range_start}

module _ {ℓ} {V : Type ℓ} where
  abbrev pub drop : ℕ → Bucket V → Bucket V
  drop zero b = b
  drop (suc n) [] = []
  drop (suc n) (e ∷ b) = drop n b

  -- All entries of a bucket after a key, in order.
  abbrev pub after : Option ℕ → Bucket V → Bucket V
  after start b = range (calc_range_start start) none b

  Above-after : (start : Option ℕ) (i : ℕ) (b : Bucket V) → Above i b → Above i (after start b)
  unfolding range
  Above-after start i [] h = tt
  Above-after start i ((j, v) ∷ b) h = ground (arith, Above-after start i b h.1)

  after-Ascending : (start : Option ℕ) (b : Bucket V) → Ascending b → Ascending (after start b)
  unfolding range
  after-Ascending start [] h = tt
  after-Ascending start ((j, v) ∷ b) h =
      ground (arith, after-Ascending start b h.1, Above-after start j b h.0)

  get_elem?-Above :
      (j m k : ℕ) (v : V) (b : Bucket V) → Above j b → get_elem? b m ≡ some (k, v) → j < k
  get_elem?-Above j m k v [] h e = cc e
  get_elem?-Above j zero k v ((i, w) ∷ b) h e = ground arith
  get_elem?-Above j (suc m) k v ((i, w) ∷ b) h e = get_elem?-Above j m k v b h.1 e

  after-Above : (k : ℕ) (b : Bucket V) → Above k b → after (some k) b ≡ b
  unfolding range
  after-Above k [] h = refl
  after-Above k ((j, v) ∷ b) h = ground (arith, after-Above k b)

  -- After the key at a position come the entries after the position.
  after-drop :
      (m k : ℕ) (v : V) (b : Bucket V)
      → Ascending b
      → get_elem? b m ≡ some (k, v)
      → after (some k) b ≡ drop (suc m) b
  unfolding range
  after-drop m k v [] h e = cc e
  after-drop zero k v ((j, w) ∷ b) h e =
      let same : j ≡ k = ground arith in
      let rest : after (some k) b ≡ b = after-Above k b (subst (λ i. Above i b) same h.0) in
      ground (arith, rest)
  after-drop (suc m) k v ((j, w) ∷ b) h e =
      let later = get_elem?-Above j m k v b h.0 e in ground (arith, later, after-drop m k v b h.1 e)

  -- An entry of a range passes its test.
  after-key :
      (start : Option ℕ) (m k : ℕ) (v : V) (b : Bucket V)
      → get_elem? (after start b) m ≡ some (k, v)
      → at_or_after (calc_range_start start) k ≡ true
  unfolding range
  after-key none m k v b e = refl
  after-key (some i) m k v [] e = cc e
  after-key (some i) zero k v ((j, w) ∷ b) e = ground (arith, after-key (some i) zero k v b)
  after-key (some i) (suc m) k v ((j, w) ∷ b) e =
      ground (arith, after-key (some i) m k v b, after-key (some i) (suc m) k v b)

  after-after :
      (start : Option ℕ) (k : ℕ) (b : Bucket V)
      → at_or_after (calc_range_start start) k ≡ true
      → after (some k) (after start b) ≡ after (some k) b
  unfolding range
  after-after start k [] h = refl
  after-after none k ((j, w) ∷ b) h = ground (arith, after-after none k b h)
  after-after (some i) k ((j, w) ∷ b) h = ground (arith, after-after (some i) k b h)

  -- In a bucket in ascending order, let `k` be the key at position `m` of the entries after
  -- `start`. Then the ascending page after `k` is the next entries after that position, as many as
  -- the page's limit says, 10 if it says nothing, and never more than 30.
  pub page-continues :
      (start limit : Option ℕ) (m k : ℕ) (v : V) (b : Bucket V)
      → Ascending b
      → get_elem? (after start b) m ≡ some (k, v)
      → page b (some k) limit (some asc)
        ≡ take (min (unwrap_or limit 10) 30) (drop (suc m) (after start b))
  unfolding page
  page-continues start limit m k v b h e = ap (take (min (unwrap_or limit 10) 30)) (
      sym (after-after start k b (after-key start m k v b e))
      ∙ after-drop m k v (after start b) (after-Ascending start b h) e)
