-- ===== src/Vesting/Tests.antt =====
-- The vesting contract on one account: runs, and the theorems at concrete inputs.
use anchor_token_contracts.Base.{◌+◌, ◌≤◌, ◌≡◌, refl, some, List, Result, ok, err, arith, [], ◌∷◌}
use anchor_token_contracts.Base.Buckets.{may_load, save}
use anchor_token_contracts.Cosmwasm.{
  Deps, HandleResponse, IsCosmwasm, example_deps, example_laws, env_at, paid_in,
}
use anchor_token_contracts.Vesting.Types.{Storage, VestingInfo, VestingAccount, store_vesting_info}
use anchor_token_contracts.Vesting.Claims.{
  add_release, add_releases, compute_claim_amount, assert_vesting_schedules,
}
use anchor_token_contracts.Vesting.Contract.{
  claims, register, handle, claim, claim_messages, assert_owner_privilege,
  register_vesting_accounts, register_each,
}
use anchor_token_contracts.Linear.{vested, amount_of}
use anchor_token_contracts.Vesting.Claimable.{claim_returns}
use anchor_token_contracts.Vesting.Payments.{Paid, nothing, later, payments_bound}
use anchor_token_contracts.Vesting.Schedules.{IsScheduled, handle-IsScheduled}

abbrev deps : Deps
deps = example_deps 0

abbrev laws : IsCosmwasm deps
laws = example_laws 0

-- 1000 tokens from time 100 to time 200.
abbrev info : VestingInfo
info = record { schedules = (100, 200, 1000) ∷ []; last_claim_time = 100 }

abbrev start : Storage
start = record {
  config = some (record { owner = 5; anchor_token = 1; genesis_time = 100 });
  vesting_infos = (3, info) ∷ [];
}

abbrev storage_of : Result (Storage × HandleResponse) → Storage
storage_of (ok (s, r)) = s
storage_of (err e) = start

abbrev response_of : Result (Storage × HandleResponse) → HandleResponse
response_of (ok (s, r)) = r
response_of (err e) = record { messages = []; log = [] }

-- Alice claims at time 150 and at time 300.
abbrev first : Result (Storage × HandleResponse)
first = handle deps start (env_at "alice" 1 150) claims

abbrev second : Result (Storage × HandleResponse)
second = handle deps (storage_of first) (env_at "alice" 2 300) claims

first_runs : first ≡ ok (storage_of first, response_of first)
unfolding handle claim claim_messages may_load compute_claim_amount add_releases add_release save
first_runs = refl

second_runs : second ≡ ok (storage_of second, response_of second)
unfolding handle claim claim_messages may_load compute_claim_amount add_releases add_release save
second_runs = refl

claims_run : Paid deps 3 100 start 300 1000 (storage_of second)
unfolding handle claim claim_messages may_load compute_claim_amount add_releases add_release save
claims_run =
    later
      (later nothing (env_at "alice" 1 150) claims (response_of first) 3 (omega arith) tt refl
        first_runs)
      (env_at "alice" 2 300) claims (response_of second) 3 (omega arith) tt refl second_runs

payments_bound_example :
    (1000 + vested 100 info.schedules ≤ vested 300 info.schedules)
    × (1000 ≤ amount_of info.schedules)
unfolding may_load
payments_bound_example = payments_bound laws 3 info 100 start refl (omega arith) claims_run

-- Carol, the owner, registers Bob.
abbrev bobs : List VestingAccount
bobs = record { address = "bob"; schedules = (100, 150, 70) ∷ (150, 160, 30) ∷ [] } ∷ []

abbrev registering : Result (Storage × HandleResponse)
registering = handle deps start (env_at "carol" 1 90) (register bobs)

registering_runs : registering ≡ ok (storage_of registering, response_of registering)
unfolding handle assert_owner_privilege register_vesting_accounts register_each
    assert_vesting_schedules save
registering_runs = refl

start-IsScheduled : IsScheduled start
unfolding may_load
start-IsScheduled key i h = ground arith

handle-IsScheduled_example : IsScheduled (storage_of registering)
handle-IsScheduled_example =
    handle-IsScheduled laws start (env_at "carol" 1 90) (register bobs) start-IsScheduled
      registering_runs

claim_returns_example :
    (r : HandleResponse) × (claim deps start (env_at "alice" 1 150)
      ≡ ok (store_vesting_info 3 (record info { last_claim_time = 150 }) start, r))
    × (compute_claim_amount deps 150 info ≡ ok (paid_in r.messages))
unfolding may_load
claim_returns_example =
    claim_returns deps laws start (env_at "alice" 1 150) 3
      (record { owner = 5; anchor_token = 1; genesis_time = 100 }) info "anchor" refl refl refl refl
      (omega arith) (omega arith, tt) (omega arith, tt) (omega arith)
