-- ===== src/Cosmwasm/Example.antt =====
-- A platform that has the documented behaviour, for tests: addresses are a few names, and every
-- cw20 query answers with one balance.
use text.Mathlib.Text.{◌==◌ as str_eq}
use text.Mathlib.TextEquality.{eq_iff}
use anchor_token_contracts.Base.{
  ℕ, ◌+◌, ◌-◌, ◌*◌, ◌/◌, ◌≡◌, refl, [], ◌∷◌, Result, ok, err, underflow, panic, parse_err, leb,
  ◌==◌, if◌then◌else◌, arith, div_uint, mul_u128, ◌>>=◌, ◌<◌, ◌≤◌, u128_mod, ◌≢◌, ◌⊎◌, Fails,
  add_u128,
}
use anchor_token_contracts.Cosmwasm.Types.{
  HumanAddr, CanonicalAddr, Binary, Deps, IsCosmwasm, IsAddressCodec, Env, decimal_one,
}

abbrev canonical : HumanAddr → Result CanonicalAddr
canonical a =
    if str_eq a "anchor"
    then ok 1
    else if str_eq a "gov"
    then ok 2
    else if str_eq a "alice"
    then ok 3
    else if str_eq a "bob"
    then ok 4
    else if str_eq a "carol"
    then ok 5
    else err parse_err

abbrev human : CanonicalAddr → Result HumanAddr
human c =
    if c == 1
    then ok "anchor"
    else if c == 2
    then ok "gov"
    else if c == 3
    then ok "alice"
    else if c == 4
    then ok "bob"
    else if c == 5
    then ok "carol"
    else err parse_err

abbrev decode : Binary → Result ℕ
decode [] = err parse_err
decode (n ∷ _) = ok n

abbrev ratio : ℕ → ℕ → ℕ → Result ℕ
ratio a n m = mul_u128 a n >>= λ p. div_uint p m

abbrev subtract : ℕ → ℕ → Result ℕ
subtract a b = if leb b a then ok (a - b) else err underflow

abbrev pub example_deps : ℕ → Deps
example_deps balance = record {
  canonical_address = canonical;
  human_address = human;
  as_slice = λ a. a ∷ [];
  to_length_prefixed = λ _. 0 ∷ 7 ∷ [];
  query_raw = λ _ _. ok (balance ∷ []);
  to_binary_uint = λ n. n ∷ [];
  from_binary_uint = decode;
  uint_add = add_u128;
  uint_sub = subtract;
  multiply_ratio = ratio;
  from_ratio = λ n m. ratio n decimal_one m;
  decimal_add = add_u128;
  uint_mul = λ a x. ratio a x decimal_one;
}

add_cases : (a b : ℕ) → (add_u128 a b ≡ ok (a + b)) ⊎ Fails (add_u128 a b)
add_cases a b = ground arith

add_fits : (a b : ℕ) → a + b < u128_mod → add_u128 a b ≡ ok (a + b)
add_fits a b h = ground arith

ratio_cases : (a n m : ℕ) → (ratio a n m ≡ ok (a * n / m)) ⊎ Fails (ratio a n m)
ratio_cases a n m = ground arith

ratio_fits : (a n m : ℕ) → m ≢ 0 → a * n < u128_mod → ratio a n m ≡ ok (a * n / m)
ratio_fits a n m h k = ground arith

ratio_zero : (a n : ℕ) → Fails (ratio a n 0)
ratio_zero a n = (panic, ground arith)

sub_fits : (a b : ℕ) → b ≤ a → subtract a b ≡ ok (a - b)
sub_fits a b h = ground arith

sub_fails : (a b : ℕ) → a < b → subtract a b ≡ err underflow
sub_fails a b h = ground arith

pub example_laws : (balance : ℕ) → IsCosmwasm (example_deps balance)
example_laws balance = record {
  decode_encode = λ n. refl;
  add_cases = add_cases;
  add_fits = add_fits;
  sub_fits = sub_fits;
  sub_fails = sub_fails;
  ratio_cases = ratio_cases;
  ratio_fits = ratio_fits;
  ratio_zero = ratio_zero;
  decimal_cases = λ n m. ratio_cases n decimal_one m;
  decimal_fits = λ n m. ratio_fits n decimal_one m;
  decimal_zero = λ n. ratio_zero n decimal_one;
  decimal_add_cases = add_cases;
  decimal_add_fits = add_fits;
  mul_cases = λ a x. ratio_cases a x decimal_one;
  mul_fits = λ a x h. ratio_fits a x decimal_one (omega arith) h;
}

known_address : (a : HumanAddr) (key : CanonicalAddr) → canonical a ≡ ok key → human key ≡ ok a
known_address a key h = ground (
  arith,
  (eq_iff a "anchor").0,
  (eq_iff a "gov").0,
  (eq_iff a "alice").0,
  (eq_iff a "bob").0,
  (eq_iff a "carol").0,
)

pub example_codec : (balance : ℕ) → IsAddressCodec (example_deps balance)
example_codec balance = record { human_canonical = known_address }

-- A call by `sender` at a height, with a time of its own.
abbrev pub env_at : HumanAddr → ℕ → ℕ → Env
env_at sender height time = record {
  block_height = height;
  block_time = time;
  sender = sender;
  contract_address = "gov";
}
