-- ===== src/Querier/Tests.antt =====
-- The query helpers on a chain with a tax of one percent, capped at 5.
use anchor_token_contracts.Base.{
  ℕ, ◌+◌, ◌-◌, ◌*◌, ◌/◌, ◌^◌, ◌≤◌, ◌<◌, ◌≡◌, ◌≢◌, ◌⊎◌, refl, arith, [], Result, ok, err, panic,
  parse_err, leb, ◌==◌, if◌then◌else◌, Fails, checked, ◌>>=◌, u128_mod,
}
use anchor_token_contracts.Cosmwasm.{decimal_one}
use anchor_token_contracts.Querier.Types.{Coin, Chain, Bignumber, IsBignumber, u256_mod}
use anchor_token_contracts.Querier.Queries.{compute_tax, deduct_tax}
use anchor_token_contracts.Querier.Tax.{IsNetOfTax, deduct_tax_returns}

abbrev chain : Chain
chain = record {
  all_balances = λ a. ok [];
  balance = λ a denom. ok (record { denom = denom; amount = 7 });
  from_binary_token_info = λ b. err parse_err;
  tax_rate = ok (10 ^ 16);
  tax_cap = λ denom. ok 5;
}

abbrev subtract : ℕ → ℕ → Result ℕ
subtract x y = if leb y x then ok (x - y) else err panic

abbrev divide : ℕ → ℕ → Result ℕ
divide x y = if y == 0 then err panic else (checked u256_mod (x * decimal_one) >>= λ p. ok (p / y))

abbrev scale : ℕ → ℕ → Result ℕ
scale a x = checked u256_mod (a * x) >>= λ p. ok (p / decimal_one)

abbrev numbers : Bignumber
numbers = record {
  decimal_add = λ x y. checked u256_mod (x + y);
  decimal_sub = subtract;
  decimal_div = divide;
  uint_mul = scale;
  uint_sub = subtract;
  to_uint128 = checked u128_mod;
}

subtract_cases :
    (x y : ℕ) → ((y ≤ x) × (subtract x y ≡ ok (x - y))) ⊎ ((x < y) × Fails (subtract x y))
subtract_cases x y = ground arith

divide_cases : (x y : ℕ) → ((y ≢ 0) × (divide x y ≡ ok (x * decimal_one / y))) ⊎ Fails (divide x y)
divide_cases x y = ground arith

numbers_laws : IsBignumber numbers
numbers_laws = record {
  add_cases = λ x y. ground arith;
  add_fits = λ x y h. ground arith;
  sub_cases = subtract_cases;
  div_cases = divide_cases;
  div_fits = λ x y pos h. ground arith;
  mul_cases = λ a x. ground arith;
  mul_fits = λ a x h. ground arith;
  uint_sub_cases = subtract_cases;
  narrow_cases = λ x. ground arith;
}

-- Of 202, 2 are taken: 200 and the tax of 2 on it.
deducting_runs :
    deduct_tax chain numbers (record { denom = "uusd"; amount = 202 })
    ≡ ok (record { denom = "uusd"; amount = 200 })
unfolding deduct_tax compute_tax
deducting_runs = refl

deduct_tax_returns_example :
    (left : Coin) × (deduct_tax chain numbers (record { denom = "uusd"; amount = 202 }) ≡ ok left)
    × IsNetOfTax chain (record { denom = "uusd"; amount = 202 }) left
deduct_tax_returns_example =
    deduct_tax_returns chain numbers_laws (record { denom = "uusd"; amount = 202 }) (10 ^ 16) 5 refl
      refl (omega arith) (omega arith)
