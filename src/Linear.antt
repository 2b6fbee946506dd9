-- ===== src/Linear.antt =====
-- The linear release of amounts between two points of time, which the loops of
-- contracts/vesting/src/contract.rs (`compute_claim_amount`) and contracts/staking/src/contract.rs
-- (`compute_reward`) share: a schedule is a start, an end and an amount.
pub mod Returns
use native.Mathlib.Nat.{
  div-mul-le_self, mul-le-mul_right, div-le_of_le-mul, le-div_iff_mul-le, le_trans,
}
use anchor_token_contracts.Base.{
  ℕ, ◌+◌, ◌-◌, ◌*◌, ◌/◌, ◌≤◌, ◌≡◌, ◌≢◌, List, [], ◌∷◌, ok, arith, min, max, ltb, ◌||◌, ◌⊎◌, inl,
  inr, true, Result-cases, ◌>>=◌,
}
use anchor_token_contracts.Cosmwasm.{Deps, IsCosmwasm, decimal_one}
use anchor_token_contracts.Cosmwasm.Laws.{add_value, mul_value, decimal_value}

abbrev pub Span : Type 0
Span = ℕ × ℕ × ℕ

abbrev pub amount_of : List Span → ℕ
amount_of [] = 0
amount_of ((_, _, amount) ∷ l) = amount + amount_of l

-- The tokens per unit of time, in units of 10⁻¹⁸ tokens.
abbrev pub rate : Span → ℕ
rate (start, end, amount) = amount * decimal_one / (end - start)

-- What a schedule has released up to a time, rounded down.
abbrev pub vested_by : ℕ → Span → ℕ
vested_by t (start, end, amount) = (min end t - start) * rate (start, end, amount) / decimal_one

abbrev pub vested : ℕ → List Span → ℕ
vested t [] = 0
vested t (s ∷ l) = vested_by t s + vested t l

floor_add :
    (a b c r : ℕ) → a + b ≤ c → a * r / decimal_one + b * r / decimal_one ≤ c * r / decimal_one
floor_add a b c r h = (le-div_iff_mul-le (omega arith)).1 (
    omega (
      arith,
      div-mul-le_self (a * r) decimal_one,
      div-mul-le_self (b * r) decimal_one,
      mul-le-mul_right r h,
    ))

scaled_mono : (a b r : ℕ) → a ≤ b → a * r / decimal_one ≤ b * r / decimal_one
scaled_mono a b r h =
    (le-div_iff_mul-le (omega arith)).1
      (le_trans (div-mul-le_self (a * r) decimal_one) (mul-le-mul_right r h))

vested_by_bound : (t : ℕ) (s : Span) → vested_by t s ≤ s.2
vested_by_bound t (start, end, amount) =
    let le : min end t - start ≤ end - start = omega arith in
    div-le_of_le-mul decimal_one (
      le_trans (mul-le-mul_right (rate (start, end, amount)) le)
        (omega (arith, div-mul-le_self (amount * decimal_one) (end - start))))

pub vested_bound : (t : ℕ) (l : List Span) → vested t l ≤ amount_of l
vested_bound t [] = omega arith
vested_bound t (s ∷ l) = omega (arith, vested_by_bound t s, vested_bound t l)

pub vested_mono : (t u : ℕ) (l : List Span) → t ≤ u → vested t l ≤ vested u l
vested_mono t u [] h = omega arith
vested_mono t u ((start, end, amount) ∷ l) h =
    let le : min end t - start ≤ min end u - start = omega arith in
    omega (arith, scaled_mono _ _ (rate (start, end, amount)) le, vested_mono t u l h)

-- What a round of either loop has done to the sum when it succeeds: nothing, for a schedule that
-- has not begun or had ended at the last visit, or an addition.
abbrev pub Round : Deps → ℕ → ℕ → ℕ → Span → ℕ → Type 0
Round d now last sum (start, end, amount) sum' =
    (((ltb now start || ltb end last) ≡ true) × (sum' ≡ sum))
    ⊎ ((max start last ≤ min end now)
        × ((d.from_ratio amount (end - start) >>= λ per_time.
              d.uint_mul (min end now - max start last) per_time >>= λ released.
              d.uint_add sum released)
            ≡ ok sum'))

passed_over :
    (now last start end r : ℕ)
    → last ≤ now
    → (ltb now start || ltb end last) ≡ true
    → (min end last - start) * r / decimal_one ≤ (min end now - start) * r / decimal_one
passed_over now last start end r le h =
    let shorter : min end last - start ≤ min end now - start = ground arith in
    scaled_mono _ _ r shorter

module _ {d : Deps} (laws : IsCosmwasm d) where
  released_value :
      (sum passed start end amount : ℕ) {c : ℕ}
      → (d.from_ratio amount (end - start) >>= λ per_time.
          d.uint_mul passed per_time >>= λ released. d.uint_add sum released)
        ≡ ok c
      → (end - start ≢ 0) × (c ≡ sum + passed * rate (start, end, amount) / decimal_one)
  released_value sum passed start end amount {c} h =
      elim (Result-cases (d.from_ratio amount (end - start))) [
        | inl (x, e) ↦ elim (Result-cases (d.uint_mul passed x)) [
          | inl (y, e') ↦
              let (proper, x_is) = decimal_value laws amount (end - start) e in
              let y_is = mul_value laws passed x e' in
              let total : c ≡ sum + y = add_value laws sum y (ground (arith, e, e')) in
              (proper, ground arith)
          | inr (bad, e') ↦ cc (rw (e, e') at h)
        ]
        | inr (bad, e) ↦ cc (rw e at h)
      ]

  -- A round adds at most what the schedule releases between the last visit and now.
  pub Round-bound :
      (now last sum : ℕ) (s : Span) {sum' : ℕ}
      → last ≤ now
      → Round d now last sum s sum'
      → sum' + vested_by last s ≤ sum + vested_by now s
  Round-bound now last sum (start, end, amount) le (inl (skipped, same)) =
      omega (arith, same, passed_over now last start end (rate (start, end, amount)) le skipped)
  Round-bound now last sum (start, end, amount) le (inr (fits, released)) =
      let (proper, value) =
        released_value sum (min end now - max start last) start end amount released in
      omega (
        arith,
        value,
        floor_add (min end last - start) (min end now - max start last) (min end now - start)
            (rate (start, end, amount)) (omega arith),
      )
