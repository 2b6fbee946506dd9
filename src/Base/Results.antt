-- ===== src/Base/Results.antt =====
-- `StdResult`: a value, or the error that aborts the transaction. A Rust panic aborts it too and
-- is one of the errors. Fixed-width integers of the language: the release profile has
-- `overflow-checks = true`, so what does not fit panics.
use Prim.Native.Nat.{ℕ, ◌+◌, ◌-◌, ◌*◌, ◌/◌, ◌^◌}
use Prim.Native.String.{String}
use mathlib.Core.Path.{◌≡◌, refl}
use mathlib.Core.Logic.{◌⊎◌, ◌≢◌, inl, inr}
use mathlib.Core.Bool.{Bool, true, false}
use mathlib.Core.Option.{Option, none, some}
use mathlib.Core.List.{List, [], ◌∷◌}
use anchor_token_contracts.Base.Tests.{ltb, leb, ◌==◌, if◌then◌else◌}

pub data Error : Type 0 where
  unauthorized not_found underflow parse_err panic : Error
  generic_err : String → Error

pub data Result {ℓ} (A : Type ℓ) : Type ℓ where
  err : Error → Result A
  ok : A → Result A

infixl 5 ◌>>◌ ◌>>=◌
-- `?`
abbrev pub ◌>>=◌ {ℓ ℓ'} : {A : Type ℓ} {B : Type ℓ'} → Result A → (A → Result B) → Result B
err failure >>= next = err failure
ok value >>= next = next value

-- `?` on a check that has no value.
abbrev pub ◌>>◌ {ℓ} : {B : Type ℓ} → Result (Unit {0}) → Result B → Result B
check >> next = check >>= λ done. next

-- `if test { return Err(e) }`
abbrev pub fail_if : Bool → Error → Result (Unit {0})
fail_if true e = err e
fail_if false e = ok tt

-- `Option::ok_or`, the `load` of a key that may be missing, and `Option::unwrap`.
abbrev pub ok_or {ℓ} : {A : Type ℓ} → Option A → Error → Result A
ok_or none e = err e
ok_or (some a) e = ok a

-- `Result::unwrap`
abbrev pub unwrap {ℓ} : {A : Type ℓ} → Result A → Result A
unwrap (ok a) = ok a
unwrap (err e) = err panic

abbrev pub map_result {ℓ κ} : {A : Type ℓ} {B : Type κ} → (A → B) → Result A → Result B
map_result f (ok a) = ok (f a)
map_result f (err e) = err e

-- `if let Some(x) = o { y = f(x)? }` over a field that keeps its old value otherwise.
abbrev pub update_with {ℓ κ} : {A : Type ℓ} {B : Type κ} → (A → Result B) → Option A → B → Result B
update_with f none old = ok old
update_with f (some a) old = f a

-- `iter().map(f).collect::<StdResult<Vec<_>>>()`
abbrev pub collect {ℓ κ} : {A : Type ℓ} {B : Type κ} → (A → Result B) → List A → Result (List B)
collect f [] = ok []
collect f (x ∷ xs) = f x >>= λ y. collect f xs >>= λ ys. ok (y ∷ ys)

pub Result-cases {ℓ} :
    {A : Type ℓ} (m : Result A) → ((a : A) × (m ≡ ok a)) ⊎ ((e : Error) × (m ≡ err e))
Result-cases (ok a) = inl (a, refl)
Result-cases (err e) = inr (e, refl)

-- What cannot fail returns.
pub returned {ℓ} : {A : Type ℓ} (m : Result A) → ((e : Error) → m ≢ err e) → (a : A) × (m ≡ ok a)
returned (ok a) h = (a, refl)
returned (err e) h = absurd (h e refl)

abbrev pub Fails {ℓ} : {A : Type ℓ} → Result A → Type ℓ
Fails m = (e : Error) × (m ≡ err e)

abbrev pub u64_mod : ℕ
u64_mod = 2 ^ 64

abbrev pub u128_mod : ℕ
u128_mod = 2 ^ 128

abbrev pub checked : ℕ → ℕ → Result ℕ
checked modulus a = if ltb a modulus then ok a else err panic

abbrev pub add_u64 : ℕ → ℕ → Result ℕ
add_u64 a b = checked u64_mod (a + b)

-- The subtraction of every unsigned width.
abbrev pub sub_uint : ℕ → ℕ → Result ℕ
sub_uint a b = if leb b a then ok (a - b) else err panic

abbrev pub add_u128 : ℕ → ℕ → Result ℕ
add_u128 a b = checked u128_mod (a + b)

abbrev pub mul_u128 : ℕ → ℕ → Result ℕ
mul_u128 a b = checked u128_mod (a * b)

abbrev pub div_uint : ℕ → ℕ → Result ℕ
div_uint a b = if b == 0 then err panic else ok (a / b)
