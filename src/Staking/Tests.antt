-- ===== src/Staking/Tests.antt =====
-- The staking contract on two stakers: runs, and the theorems at concrete inputs.
use anchor_token_contracts.Base.{◌≡◌, refl, ◌+◌, ◌≤◌, some, Result, ok, err, arith, [], ◌∷◌}
use anchor_token_contracts.Base.Buckets.{may_load, save, remove}
use anchor_token_contracts.Cosmwasm.{
  Deps, HandleResponse, IsCosmwasm, example_deps, example_laws, env_at, transfer,
}
use anchor_token_contracts.Staking.Types.{Storage, State, Config}
use anchor_token_contracts.Staking.Rewards.{
  add_slot, add_slots, compute_reward, compute_staker_reward, decrease_bond_amount,
  increase_bond_amount,
}
use anchor_token_contracts.Staking.Contract.{
  bonds, receive, withdraws, unbonds, bond, unbond, withdraw, handle, receive_cw20, run_hook, init,
}
use anchor_token_contracts.Staking.Bonds.{IsBonded, handle-IsBonded}
use anchor_token_contracts.Linear.{vested, amount_of}
use anchor_token_contracts.Staking.Solvency.{Run, started, called, rewards_bound}
use anchor_token_contracts.Staking.Ledger.{post, view, post-view}
use anchor_token_contracts.Staking.Custody.{History, nothing_yet, and_then, bond_backed}
use anchor_token_contracts.Staking.Recovery.{unbond_returns}
use anchor_token_contracts.Staking.Payout.{PaysOut, withdraw_pays}

abbrev deps : Deps
deps = example_deps 0

abbrev laws : IsCosmwasm deps
laws = example_laws 0

-- 1000 tokens over the blocks 100 to 200, for bonds of 30 and 10.
abbrev start : Storage
start = record {
  config = some (record {
    anchor_token = 1;
    staking_token = 2;
    distribution_schedule = (100, 200, 1000) ∷ [];
  });
  state = some (record { last_distributed = 110; total_bond_amount = 40; global_reward_index = 0 });
  stakers =
      (3, record { reward_index = 0; bond_amount = 30; pending_reward = 5 })
      ∷ (4, record { reward_index = 0; bond_amount = 10; pending_reward = 0 })
      ∷ [];
}

abbrev storage_of : Result (Storage × HandleResponse) → Storage
storage_of (ok (s, r)) = s
storage_of (err e) = start

abbrev response_of : Result (Storage × HandleResponse) → HandleResponse
response_of (ok (s, r)) = r
response_of (err e) = record { messages = []; log = [] }

-- Bob takes 4 of his 10 back at height 150.
abbrev unbonding : Result (Storage × HandleResponse)
unbonding = handle deps start (env_at "bob" 150 0) (unbonds 4)

unbonding_runs : unbonding ≡ ok (storage_of unbonding, response_of unbonding)
unfolding handle unbond may_load save remove compute_reward add_slots add_slot compute_staker_reward
    decrease_bond_amount
unbonding_runs = refl

handle-IsBonded_example : IsBonded (storage_of unbonding)
handle-IsBonded_example =
    handle-IsBonded laws start (env_at "bob" 150 0) (unbonds 4)
      (record { ascending = omega arith; total = refl }) unbonding_runs

abbrev withdrawing : Result (Storage × HandleResponse)
withdrawing = withdraw deps start (env_at "alice" 150 0)

withdrawing_runs : withdrawing ≡ ok (storage_of withdrawing, response_of withdrawing)
unfolding unbonding_runs withdraw
withdrawing_runs = refl

withdraw_pays_example :
    PaysOut deps start (env_at "alice" 150 0) (storage_of withdrawing) (response_of withdrawing)
withdraw_pays_example = withdraw_pays deps start (env_at "alice" 150 0) withdrawing_runs

-- From a start at height 100: Alice bonds 30 at 120 and withdraws at 150.
abbrev fresh_config : Config
fresh_config = record {
  anchor_token = 1;
  staking_token = 2;
  distribution_schedule = (100, 200, 1000) ∷ [];
}

abbrev fresh : Storage
fresh = record {
  config = some fresh_config;
  state = some (record { last_distributed = 100; total_bond_amount = 0; global_reward_index = 0 });
  stakers = [];
}

abbrev bonding : Result (Storage × HandleResponse)
bonding =
    handle deps fresh (env_at "gov" 120 0)
      (receive (record { cw20_sender = "alice"; cw20_amount = 30; hook = ok (some bonds) }))

bonding_runs : bonding ≡ ok (storage_of bonding, response_of bonding)
unfolding unbonding_runs receive_cw20 run_hook bond increase_bond_amount
bonding_runs = refl

abbrev paying : Result (Storage × HandleResponse)
paying = handle deps (storage_of bonding) (env_at "alice" 150 0) withdraws

paying_runs : paying ≡ ok (storage_of paying, response_of paying)
unfolding bonding_runs withdraw
paying_runs = refl

bonding-Run : Run deps 100 fresh 120 0 1 (storage_of bonding)
unfolding bonding_runs
bonding-Run =
    called started (env_at "gov" 120 0)
      (receive (record { cw20_sender = "alice"; cw20_amount = 30; hook = ok (some bonds) }))
      (response_of bonding) (omega arith) bonding_runs

rewards-Run : Run deps 100 fresh 150 300 2 (storage_of paying)
unfolding bonding_runs withdraw
rewards-Run =
    called
      (called started (env_at "gov" 120 0)
        (receive (record { cw20_sender = "alice"; cw20_amount = 30; hook = ok (some bonds) }))
        (response_of bonding) (omega arith) bonding_runs)
      (env_at "alice" 150 0) withdraws (response_of paying) (omega arith) paying_runs

rewards_bound_example :
    (300 + vested 100 ((100, 200, 1000) ∷ []) ≤ vested 150 ((100, 200, 1000) ∷ []) + 2)
    × (300 ≤ amount_of ((100, 200, 1000) ∷ []) + 2)
unfolding init
rewards_bound_example =
    rewards_bound laws (env_at "carol" 100 0) "anchor" "gov" ((100, 200, 1000) ∷ []) fresh refl
      rewards-Run

-- Bob takes 4 of his 10 back, on the ledger too.
post-view_example :
    post deps (env_at "bob" 150 0) (unbonds 4) (view start) ≡ ok (view (storage_of unbonding))
post-view_example = post-view laws start (env_at "bob" 150 0) (unbonds 4) unbonding_runs

-- Alice, with 30 bonded, takes 12 back.
abbrev returning : Result (Storage × HandleResponse)
returning = handle deps (storage_of bonding) (env_at "alice" 150 0) (unbonds 12)

returning_runs : returning ≡ ok (storage_of returning, response_of returning)
unfolding bonding_runs
returning_runs = refl

alices-History : History deps fresh "gov" 3 30 12 (storage_of returning)
unfolding bonding_runs
alices-History =
    and_then
      (and_then nothing_yet (env_at "gov" 120 0)
        (receive (record { cw20_sender = "alice"; cw20_amount = 30; hook = ok (some bonds) }))
        (response_of bonding) bonding_runs)
      (env_at "alice" 150 0) (unbonds 12) (response_of returning) returning_runs

bond_backed_example : view (storage_of returning) 3 + 12 ≡ 30
unfolding init
bond_backed_example =
    bond_backed laws (env_at "carol" 100 0) "anchor" "gov" ((100, 200, 1000) ∷ []) fresh "gov" 2 3
      30 12 (storage_of returning) refl refl refl alices-History

abbrev bonded_state : State
bonded_state = record { last_distributed = 120; total_bond_amount = 30; global_reward_index = 0 }

unbond_returns_example :
    (u' : Storage) × (r : HandleResponse) × (unbond deps
        (storage_of bonding)
        (env_at "alice" 150 0)
        12
      ≡ ok (u', r))
    × (r.messages ≡ record { contract_addr = "gov"; msg = transfer "alice" 12; coins = [] } ∷ [])
unfolding bonding_runs init
unbond_returns_example =
    unbond_returns deps laws (env_at "carol" 100 0) "anchor" "gov" ((100, 200, 1000) ∷ []) fresh
      (storage_of bonding) (env_at "alice" 150 0) 12 3 fresh_config bonded_state "gov"
      (omega arith, tt) refl bonding-Run (omega arith) refl refl refl refl (omega arith)
      (record { small = (omega arith, tt); index_fits = omega arith; reward_fits = omega arith })
