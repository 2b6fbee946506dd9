-- ===== src/Gov/Stakes.antt =====
-- The theorems on shares at concrete stakes: Alice holds all of 100 shares, a poll's deposit is
-- 10 tokens.
use anchor_token_contracts.Base.{◌≡◌, refl, arith, none, some, Result, ok, [], ◌∷◌}
use anchor_token_contracts.Base.Buckets.{may_load, save}
use anchor_token_contracts.Cosmwasm.{HandleResponse, example_deps, example_laws, env_at, paid_in}
use anchor_token_contracts.Gov.Types.{Storage, State, contract_balance, load_token_balance}
use anchor_token_contracts.Gov.Staking.{
  stake_voting_tokens, share_of_deposit, withdraw_voting_tokens, compute_locked_balance,
  release_votes, largest_vote, share_to_withdraw, amount_to_withdraw, pay_out, send_tokens,
}
use anchor_token_contracts.Gov.Laws.Price.{
  KeepsPrice, PaysWorth, stake-KeepsPrice, withdraw-KeepsPrice,
}
use anchor_token_contracts.Gov.Laws.Returns.{withdraw_returns, withdrawal}
use anchor_token_contracts.Gov.Example.{config, storage_of, response_of}

abbrev state : State
state = record { contract_addr = 2; poll_count = 1; total_share = 100; total_deposit = 10 }

abbrev start : Storage
start = record {
  config = some config;
  state = some state;
  polls = [];
  poll_indexer = λ st. [];
  poll_voters = λ id. [];
  bank = (3, record { share = 100; locked_balance = [] }) ∷ [];
}

-- Bob's 100 tokens have arrived: 109 of the 219 were staked before.
abbrev staking : Result (Storage × HandleResponse)
staking = stake_voting_tokens (example_deps 219) start "bob" 100

staking_runs : staking ≡ ok (storage_of staking start, response_of staking)
unfolding stake_voting_tokens share_of_deposit contract_balance load_token_balance may_load
staking_runs = refl

stake-KeepsPrice_example : KeepsPrice (example_deps 219) start 100 0 (storage_of staking start)
stake-KeepsPrice_example =
    stake-KeepsPrice (example_deps 219) (example_laws 219) start "bob" 100 staking_runs

-- Alice and Bob share the stake, and Alice leaves with 60 of the 100 shares.
abbrev shared : Storage
shared = record start {
  bank =
      (3, record { share = 60; locked_balance = [] })
      ∷ (4, record { share = 40; locked_balance = [] })
      ∷ [];
}

abbrev leaving : Result (Storage × HandleResponse)
leaving = withdraw_voting_tokens (example_deps 119) shared (env_at "alice" 90 0) none

leaving_runs : leaving ≡ ok (storage_of leaving shared, response_of leaving)
unfolding withdraw_voting_tokens compute_locked_balance release_votes largest_vote share_to_withdraw
    amount_to_withdraw pay_out send_tokens contract_balance load_token_balance may_load save
leaving_runs = refl

withdraw-KeepsPrice_example :
    PaysWorth
      (example_deps 119)
      shared
      3
      (paid_in (response_of leaving).messages)
      (storage_of leaving shared)
    × KeepsPrice
        (example_deps 119)
        shared
        0
        (paid_in (response_of leaving).messages)
        (storage_of leaving shared)
withdraw-KeepsPrice_example =
    withdraw-KeepsPrice (example_deps 119) (example_laws 119) shared (env_at "alice" 90 0) 3 refl
      leaving_runs

-- All the stake is 109 tokens, and Alice withdraws 110.
withdraw_returns_example :
    (s' : Storage) × (withdraw_voting_tokens
        (example_deps 119)
        start
        (env_at "alice" 90 0)
        (some 110)
      ≡ ok (s', withdrawal "anchor" "alice" 110))
unfolding contract_balance load_token_balance may_load
withdraw_returns_example =
    withdraw_returns (example_deps 119) (example_laws 119) start (env_at "alice" 90 0) 110 100 3 119
      config state "anchor" "alice" refl refl refl refl refl refl refl (omega arith) (omega arith)
      (omega arith) (omega arith) (omega arith) (omega arith)
