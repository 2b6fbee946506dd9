-- ===== src/Cosmwasm/Types.antt =====
-- The platform's interface: `Extern`, `Env`, `HandleResponse` and the arithmetic of `Uint128` and
-- `Decimal`.
use anchor_token_contracts.Base.{
  ℕ, ◌+◌, ◌-◌, ◌*◌, ◌/◌, ◌≤◌, ◌<◌, ◌^◌, ◌≡◌, ◌≢◌, ◌⊎◌, String, List, Result, ok, err, underflow,
  Fails, u128_mod,
}

abbrev pub HumanAddr : Type 0
HumanAddr = String

abbrev pub CanonicalAddr : Type 0
CanonicalAddr = ℕ

abbrev pub Binary : Type 0
Binary = List ℕ

-- `CanonicalAddr::default()`
abbrev pub no_address : CanonicalAddr
no_address = 0

abbrev pub decimal_one : ℕ
decimal_one = 10 ^ 18

pub record Env : Type 0 where
  pub block_height : ℕ
  pub block_time : ℕ
  pub sender : HumanAddr
  pub contract_address : HumanAddr

-- `Extern` without its storage: the address codec, the querier, and the arithmetic.
pub record Deps : Type 0 where
  pub canonical_address : HumanAddr → Result CanonicalAddr
  pub human_address : CanonicalAddr → Result HumanAddr
  pub as_slice : CanonicalAddr → Binary
  pub to_length_prefixed : String → Binary
  pub query_raw : HumanAddr → Binary → Result Binary
  pub to_binary_uint : ℕ → Binary
  pub from_binary_uint : Binary → Result ℕ
  pub uint_add : ℕ → ℕ → Result ℕ
  pub uint_sub : ℕ → ℕ → Result ℕ
  -- `a.multiply_ratio(n, m)`
  pub multiply_ratio : ℕ → ℕ → ℕ → Result ℕ
  -- `Decimal::from_ratio(n, m)`
  pub from_ratio : ℕ → ℕ → Result ℕ
  pub decimal_add : ℕ → ℕ → Result ℕ
  -- `Uint128 * Decimal`
  pub uint_mul : ℕ → ℕ → Result ℕ

-- An operation gives its rounded-down value, and nothing else when it returns; it returns where
-- no intermediate product exceeds 128 bits.
pub record IsCosmwasm (d : Deps) : Type 0 where
  pub decode_encode : (n : ℕ) → d.from_binary_uint (d.to_binary_uint n) ≡ ok n
  pub add_cases : (a b : ℕ) → (d.uint_add a b ≡ ok (a + b)) ⊎ Fails (d.uint_add a b)
  pub add_fits : (a b : ℕ) → a + b < u128_mod → d.uint_add a b ≡ ok (a + b)
  pub sub_fits : (a b : ℕ) → b ≤ a → d.uint_sub a b ≡ ok (a - b)
  pub sub_fails : (a b : ℕ) → a < b → d.uint_sub a b ≡ err underflow
  pub ratio_cases :
      (a n m : ℕ) → (d.multiply_ratio a n m ≡ ok (a * n / m)) ⊎ Fails (d.multiply_ratio a n m)
  pub ratio_fits : (a n m : ℕ) → m ≢ 0 → a * n < u128_mod → d.multiply_ratio a n m ≡ ok (a * n / m)
  pub ratio_zero : (a n : ℕ) → Fails (d.multiply_ratio a n 0)
  pub decimal_cases :
      (n m : ℕ) → (d.from_ratio n m ≡ ok (n * decimal_one / m)) ⊎ Fails (d.from_ratio n m)
  pub decimal_fits :
      (n m : ℕ) → m ≢ 0 → n * decimal_one < u128_mod → d.from_ratio n m ≡ ok (n * decimal_one / m)
  pub decimal_zero : (n : ℕ) → Fails (d.from_ratio n 0)
  pub decimal_add_cases : (x y : ℕ) → (d.decimal_add x y ≡ ok (x + y)) ⊎ Fails (d.decimal_add x y)
  pub decimal_add_fits : (x y : ℕ) → x + y < u128_mod → d.decimal_add x y ≡ ok (x + y)
  pub mul_cases : (a x : ℕ) → (d.uint_mul a x ≡ ok (a * x / decimal_one)) ⊎ Fails (d.uint_mul a x)
  pub mul_fits : (a x : ℕ) → a * x < u128_mod → d.uint_mul a x ≡ ok (a * x / decimal_one)

-- The answers of the other contracts to raw queries, such as the balances of a token.
abbrev pub Answers : Type 0
Answers = HumanAddr → Binary → Result Binary

-- The same platform at a time when the other contracts give other answers.
abbrev pub answering : Deps → Answers → Deps
answering d answers = record d { query_raw = answers }

pub answering-IsCosmwasm :
    {d : Deps} → IsCosmwasm d → (answers : Answers) → IsCosmwasm (answering d answers)
answering-IsCosmwasm laws answers = record {
  decode_encode = laws.decode_encode;
  add_cases = laws.add_cases;
  add_fits = laws.add_fits;
  sub_fits = laws.sub_fits;
  sub_fails = laws.sub_fails;
  ratio_cases = laws.ratio_cases;
  ratio_fits = laws.ratio_fits;
  ratio_zero = laws.ratio_zero;
  decimal_cases = laws.decimal_cases;
  decimal_fits = laws.decimal_fits;
  decimal_zero = laws.decimal_zero;
  decimal_add_cases = laws.decimal_add_cases;
  decimal_add_fits = laws.decimal_add_fits;
  mul_cases = laws.mul_cases;
  mul_fits = laws.mul_fits;
}

-- The address codec gives back the address that it was given.
pub record IsAddressCodec (d : Deps) : Type 0 where
  pub human_canonical :
      (a : HumanAddr) (key : CanonicalAddr)
      → d.canonical_address a ≡ ok key
      → d.human_address key ≡ ok a

-- The payload of a `WasmMsg::Execute`: a cw20 transfer, a terraswap swap of a native coin, the
-- collector's own `Distribute {}`, or bytes that a poll carries.
pub data Payload : Type 0 where
  transfer : HumanAddr → ℕ → Payload
  swap : String → ℕ → Payload
  distribute : Payload
  raw : Binary → Payload

-- `CosmosMsg::Wasm(WasmMsg::Execute { .. })`, the only message that the contracts send.
pub record CosmosMsg : Type 0 where
  pub contract_addr : HumanAddr
  pub msg : Payload
  pub coins : List (String × ℕ)

-- The value of a log attribute, before it is printed.
pub data LogValue : Type 0 where
  text : String → LogValue
  num : ℕ → LogValue
  coin : ℕ → String → LogValue

-- `HandleResponse`; its `data` is `None` throughout.
pub record HandleResponse : Type 0 where
  pub messages : List CosmosMsg
  pub log : List (String × LogValue)

pub record Cw20ReceiveMsg (A : Type 0) : Type 0 where
  pub cw20_sender : HumanAddr
  pub cw20_amount : ℕ
  -- `none` for no data, `some (err e)` for data that does not parse.
  pub hook : Result A

-- `common.rs`
pub data OrderBy : Type 0 where
  asc desc : OrderBy
