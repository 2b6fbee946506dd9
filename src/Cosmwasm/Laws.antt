-- ===== src/Cosmwasm/Laws.antt =====
-- What an arithmetic operation of the platform has computed when it returns.
use anchor_token_contracts.Base.{ℕ, ◌+◌, ◌-◌, ◌*◌, ◌/◌, ◌≤◌, ◌≡◌, ◌≢◌, ok, arith, ℕ_discrete}
use native.Mathlib.Decide.{dec_le}
use anchor_token_contracts.Cosmwasm.Types.{Deps, IsCosmwasm, decimal_one}

module _ {d : Deps} (laws : IsCosmwasm d) where
  pub add_value : (a b : ℕ) {c : ℕ} → d.uint_add a b ≡ ok c → c ≡ a + b
  add_value a b h = ground (arith, laws.add_cases a b)

  pub sub_value : (a b : ℕ) {c : ℕ} → d.uint_sub a b ≡ ok c → (b ≤ a) × (c ≡ a - b)
  sub_value a b h = elim (dec_le b a) [
    | yes fits ↦ ground (arith, laws.sub_fits a b fits)
    | no less ↦ ground (arith, laws.sub_fails a b)
  ]

  pub ratio_value : (a n m : ℕ) {c : ℕ} → d.multiply_ratio a n m ≡ ok c → (m ≢ 0) × (c ≡ a * n / m)
  ratio_value a n m h = elim (ℕ_discrete m 0) [
    | yes z ↦ ground (arith, laws.ratio_zero a n)
    | no pos ↦ ground (arith, laws.ratio_cases a n m)
  ]

  pub decimal_value :
      (n m : ℕ) {c : ℕ} → d.from_ratio n m ≡ ok c → (m ≢ 0) × (c ≡ n * decimal_one / m)
  decimal_value n m h = elim (ℕ_discrete m 0) [
    | yes z ↦ ground (arith, laws.decimal_zero n)
    | no pos ↦ ground (arith, laws.decimal_cases n m)
  ]

  pub decimal_add_value : (x y : ℕ) {c : ℕ} → d.decimal_add x y ≡ ok c → c ≡ x + y
  decimal_add_value x y h = ground (arith, laws.decimal_add_cases x y)

  pub mul_value : (a x : ℕ) {c : ℕ} → d.uint_mul a x ≡ ok c → c ≡ a * x / decimal_one
  mul_value a x h = ground (arith, laws.mul_cases a x)
