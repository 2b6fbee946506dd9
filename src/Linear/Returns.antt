-- ===== src/Linear/Returns.antt =====
-- When the loops over the schedules go through.
use native.Mathlib.Nat.{div-mul-le_self, mul-le-mul_right, le_trans, div-le_of_le-mul}
use anchor_token_contracts.Base.{
  ℕ, ◌+◌, ◌-◌, ◌*◌, ◌/◌, ◌≤◌, ◌<◌, ◌≡◌, ◌≢◌, inl, inr, refl, List, [], ◌∷◌, Result, ok, arith,
  u128_mod, All, sub_uint, min, max, ltb, ◌||◌, Bool-cases, ◌>>=◌, if◌then◌else◌,
}
use anchor_token_contracts.Cosmwasm.{Deps, IsCosmwasm, decimal_one}
use anchor_token_contracts.Linear.{Span, amount_of}

-- The start lies before the end.
abbrev pub IsProper : Span → Type 0
IsProper (start, end, _) = start < end

-- The amount, in units of 10⁻¹⁸, fits 128 bits.
abbrev pub IsSmall : Span → Type 0
IsSmall (start, end, amount) = amount * decimal_one < u128_mod

-- What is released over a part of the period.
part_released :
    (passed period amount : ℕ)
    → passed ≤ period
    → passed * (amount * decimal_one / period) ≤ amount * decimal_one
part_released passed period amount h =
    le_trans (mul-le-mul_right (amount * decimal_one / period) h)
      (omega (arith, div-mul-le_self (amount * decimal_one) period))

-- The round that both loops have, and the loop of it.
abbrev pub round : Deps → ℕ → ℕ → ℕ → Span → Result ℕ
round d now last claimable (start, end, amount) =
    if ltb now start || ltb end last then ok claimable else (do
      passed ← sub_uint (min end now) (max start last)
      period ← sub_uint end start
      per_time ← d.from_ratio amount period
      released ← d.uint_mul passed per_time
      d.uint_add claimable released)

abbrev pub rounds : Deps → ℕ → ℕ → ℕ → List Span → Result ℕ
rounds d now last claimable [] = ok claimable
rounds d now last claimable (s ∷ l) = do
  next ← round d now last claimable s
  rounds d now last next l

module _ (d : Deps) (laws : IsCosmwasm d) where
  pub round_returns :
      (now last claimable start end amount : ℕ)
      → last ≤ now
      → start < end
      → amount * decimal_one < u128_mod
      → claimable + amount < u128_mod
      → (c : ℕ) × (round d now last claimable (start, end, amount) ≡ ok c)
        × (c ≤ claimable + amount)
  round_returns now last claimable start end amount le proper small fits =
      elim (Bool-cases (ltb now start || ltb end last)) [
        | inl outside ↦ (claimable, ground arith, omega arith)
        | inr inside ↦
            let period = end - start in
            let passed = min end now - max start last in
            let per_time = amount * decimal_one / period in
            let subtracted : sub_uint (min end now) (max start last) ≡ ok passed = ground arith in
            let subtracted' : sub_uint end start ≡ ok period = ground arith in
            let some_time : period ≢ 0 = omega (arith, proper) in
            let ratio = laws.decimal_fits amount period some_time small in
            let part = part_released passed period amount (omega arith) in
            let product = laws.mul_fits passed per_time (omega (arith, part, small)) in
            let at_most : passed * per_time / decimal_one ≤ amount =
              div-le_of_le-mul decimal_one (omega (arith, part)) in
            let sum =
              laws.add_fits claimable (passed * per_time / decimal_one)
                (omega (arith, at_most, fits)) in
            (
              claimable + passed * per_time / decimal_one,
              rw (inside, subtracted, subtracted', ratio, product, sum) refl,
              omega (arith, at_most),
            )
      ]

  pub rounds_returns :
      (now last claimable : ℕ) (l : List Span)
      → last ≤ now
      → All IsProper l
      → All IsSmall l
      → claimable + amount_of l < u128_mod
      → (c : ℕ) × (rounds d now last claimable l ≡ ok c) × (c ≤ claimable + amount_of l)
  rounds_returns now last claimable [] le proper small fits = (claimable, refl, omega arith)
  rounds_returns now last claimable ((start, end, amount) ∷ l) le proper small fits =
      let (next, e, at_most) =
        round_returns now last claimable start end amount le proper.0 small.0
          (omega (arith, fits)) in
      let (c, rest, at_most') =
        rounds_returns now last next l le proper.1 small.1 (omega (arith, fits, at_most)) in
      (c, rw e rest, omega (arith, at_most, at_most'))
