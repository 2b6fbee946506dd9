-- ===== src/Querier/Types.antt =====
-- What the query helpers use of the platform (cosmwasm_std, cw20, terra_cosmwasm) and of
-- cosmwasm_bignumber, none of which is code of this repository. `Uint256` is its number and
-- `Decimal256` its number of 10⁻¹⁸, so widening keeps the number.
use anchor_token_contracts.Base.{
  ℕ, ◌+◌, ◌-◌, ◌*◌, ◌/◌, ◌≤◌, ◌<◌, ◌^◌, ◌≡◌, ◌≢◌, ◌⊎◌, String, List, Result, ok, Fails, u128_mod,
}
use anchor_token_contracts.Cosmwasm.{HumanAddr, Binary, decimal_one}

pub record Coin : Type 0 where
  pub denom : String
  pub amount : ℕ

-- `cw20::TokenInfoResponse`
pub record TokenInfo : Type 0 where
  pub name : String
  pub symbol : String
  pub decimals : ℕ
  pub total_supply : ℕ

-- The bank's and the treasury's queries, and the decoding of a token's information.
pub record Chain : Type 0 where
  pub all_balances : HumanAddr → Result (List Coin)
  pub balance : HumanAddr → String → Result Coin
  pub from_binary_token_info : Binary → Result TokenInfo
  pub tax_rate : Result ℕ
  pub tax_cap : String → Result ℕ

-- The operators of `Uint256` and `Decimal256`, which panic.
pub record Bignumber : Type 0 where
  pub decimal_add : ℕ → ℕ → Result ℕ
  pub decimal_sub : ℕ → ℕ → Result ℕ
  pub decimal_div : ℕ → ℕ → Result ℕ
  -- `Uint256 * Decimal256`
  pub uint_mul : ℕ → ℕ → Result ℕ
  pub uint_sub : ℕ → ℕ → Result ℕ
  -- `Uint256` to `Uint128`
  pub to_uint128 : ℕ → Result ℕ

abbrev pub u256_mod : ℕ
u256_mod = 2 ^ 256

-- An operator gives its value, rounded down, and nothing else when it returns; it returns where
-- no intermediate number exceeds 256 bits and nothing is subtracted from less.
pub record IsBignumber (b : Bignumber) : Type 0 where
  pub add_cases : (x y : ℕ) → (b.decimal_add x y ≡ ok (x + y)) ⊎ Fails (b.decimal_add x y)
  pub add_fits : (x y : ℕ) → x + y < u256_mod → b.decimal_add x y ≡ ok (x + y)
  pub sub_cases :
      (x y : ℕ)
      → ((y ≤ x) × (b.decimal_sub x y ≡ ok (x - y))) ⊎ ((x < y) × Fails (b.decimal_sub x y))
  pub div_cases :
      (x y : ℕ)
      → ((y ≢ 0) × (b.decimal_div x y ≡ ok (x * decimal_one / y))) ⊎ Fails (b.decimal_div x y)
  pub div_fits :
      (x y : ℕ) → y ≢ 0 → x * decimal_one < u256_mod → b.decimal_div x y ≡ ok (x * decimal_one / y)
  pub mul_cases : (a x : ℕ) → (b.uint_mul a x ≡ ok (a * x / decimal_one)) ⊎ Fails (b.uint_mul a x)
  pub mul_fits : (a x : ℕ) → a * x < u256_mod → b.uint_mul a x ≡ ok (a * x / decimal_one)
  pub uint_sub_cases :
      (x y : ℕ) → ((y ≤ x) × (b.uint_sub x y ≡ ok (x - y))) ⊎ ((x < y) × Fails (b.uint_sub x y))
  pub narrow_cases :
      (x : ℕ)
      → ((x < u128_mod) × (b.to_uint128 x ≡ ok x)) ⊎ ((u128_mod ≤ x) × Fails (b.to_uint128 x))
