-- ===== src/Gov/Scenario.antt =====
-- A run of the governance contract from `init`: Alice stakes 100 tokens, Bob creates a poll with
-- a deposit of 10 (the balance of the contract goes from 0 to 100 and 110), Alice votes, and the owner changes the configuration.
use anchor_token_contracts.Base.{◌≡◌, refl, none, some, Result, ok, err, [], ◌∷◌, List}
use anchor_token_contracts.Base.Buckets.{may_load, save}
use anchor_token_contracts.Cosmwasm.{HandleResponse, example_deps, env_at}
use anchor_token_contracts.Gov.Types.{
  contract_balance, load_token_balance, ExecuteMsg, State, Storage, Poll, in_progress, vote_yes,
}
use anchor_token_contracts.Gov.Settings.{
  update_config, init, validate_quorum, validate_threshold, register_contracts, validate_title,
  validate_description, validate_link,
}
use anchor_token_contracts.Gov.Staking.{stake_voting_tokens, share_of_deposit}
use anchor_token_contracts.Gov.Polls.Create.{create_poll, all_execute_data, execute_data_of}
use anchor_token_contracts.Gov.Polls.Vote.{cast_vote, count_vote, take_snapshot}
use anchor_token_contracts.Gov.Contract.{
  receive_cw20, run_hook, HandleMsg, handle, receive, register, vote, stake_tokens, new_poll,
}
use anchor_token_contracts.Gov.Invariant.Index.{Reach, here, next}
use anchor_token_contracts.Gov.Example.{
  deps, holding, config, first_config, storage_of, response_of, updating,
}

-- The storage of a result.
abbrev pub storage_or : Storage → Result Storage → Storage
storage_or t (ok s) = s
storage_or t (err e) = t

abbrev pub no_storage : Storage
no_storage = record {
  config = none;
  state = none;
  polls = [];
  poll_indexer = λ st. [];
  poll_voters = λ id. [];
  bank = [];
}

abbrev pub fresh : Storage
fresh = storage_or no_storage (init deps (env_at "carol" 1 0) first_config)

pub fresh_runs : init deps (env_at "carol" 1 0) first_config ≡ ok fresh
unfolding init validate_quorum validate_threshold
fresh_runs = refl

abbrev pub registering : Result (Storage × HandleResponse)
registering = handle (example_deps 0) fresh (env_at "bob" 2 0) (register "anchor")

abbrev pub registered : Storage
registered = storage_of registering fresh

pub registering_runs : registering ≡ ok (registered, response_of registering)
unfolding init validate_quorum validate_threshold handle register_contracts
registering_runs = refl

abbrev pub stake_message : HandleMsg
stake_message =
    receive (record { cw20_sender = "alice"; cw20_amount = 100; hook = ok (some stake_tokens) })

abbrev pub staking : Result (Storage × HandleResponse)
staking = handle (example_deps 100) registered (env_at "anchor" 3 0) stake_message

abbrev pub staked : Storage
staked = storage_of staking registered

pub staking_runs : staking ≡ ok (staked, response_of staking)
unfolding init validate_quorum validate_threshold handle register_contracts receive_cw20 run_hook
    stake_voting_tokens share_of_deposit contract_balance load_token_balance may_load
staking_runs = refl

abbrev pub calls : List ExecuteMsg
calls = record { order = 1; contract = "gov"; payload = 8 ∷ [] } ∷ []

abbrev pub poll_message : HandleMsg
poll_message = receive (record {
  cw20_sender = "bob";
  cw20_amount = 10;
  hook = ok (some (new_poll "title" "description" none (some calls)));
})

abbrev pub proposing : Result (Storage × HandleResponse)
proposing = handle deps staked (env_at "anchor" 4 0) poll_message

abbrev pub proposed : Storage
proposed = storage_of proposing staked

pub proposing_runs : proposing ≡ ok (proposed, response_of proposing)
unfolding init validate_quorum validate_threshold handle register_contracts receive_cw20 run_hook
    stake_voting_tokens share_of_deposit contract_balance load_token_balance may_load create_poll
    validate_title validate_description validate_link all_execute_data execute_data_of
proposing_runs = refl

abbrev pub voting : Result (Storage × HandleResponse)
voting = handle deps proposed (env_at "alice" 80 0) (vote 1 vote_yes 50)

abbrev pub voted : Storage
voted = storage_of voting proposed

pub voting_runs : voting ≡ ok (voted, response_of voting)
unfolding init validate_quorum validate_threshold handle register_contracts receive_cw20 run_hook
    stake_voting_tokens share_of_deposit contract_balance load_token_balance may_load create_poll
    validate_title validate_description validate_link all_execute_data execute_data_of cast_vote
    save count_vote take_snapshot
voting_runs = refl

pub proposed_run : Reach deps fresh proposed
proposed_run =
    next
      (next
        (next here (holding 0) (env_at "bob" 2 0) (register "anchor") (response_of registering)
          registering_runs)
        (holding 100) (env_at "anchor" 3 0) stake_message (response_of staking) staking_runs)
      (holding 110) (env_at "anchor" 4 0) poll_message (response_of proposing) proposing_runs

pub run : Reach deps fresh voted
run =
    next proposed_run (holding 110) (env_at "alice" 80 0) (vote 1 vote_yes 50) (response_of voting)
      voting_runs

abbrev pub voted_poll : Poll
voted_poll = record {
  id = 1;
  creator = 4;
  status = in_progress;
  yes_votes = 50;
  no_votes = 0;
  end_height = 104;
  title = "title";
  description = "description";
  link = none;
  execute_data = some (record { order = 1; contract = 2; payload = 8 ∷ [] } ∷ []);
  deposit_amount = 10;
  total_balance_at_end_poll = none;
  staked_amount = some 100;
}

pub voted_found : may_load 1 voted.polls ≡ some voted_poll
unfolding init validate_quorum validate_threshold handle register_contracts receive_cw20 run_hook
    stake_voting_tokens share_of_deposit contract_balance load_token_balance may_load create_poll
    validate_title validate_description validate_link all_execute_data execute_data_of cast_vote
    save count_vote take_snapshot
voted_found = refl

-- Bob's proposal, without the token contract's message around it.
pub creating_runs :
    create_poll deps staked (env_at "anchor" 4 0) "bob" 10 "title" "description" none (some calls)
    ≡ ok (proposed, response_of proposing)
unfolding init validate_quorum validate_threshold handle register_contracts receive_cw20 run_hook
    stake_voting_tokens share_of_deposit contract_balance load_token_balance may_load create_poll
    validate_title validate_description validate_link all_execute_data execute_data_of
creating_runs = refl

abbrev pub voted_state : State
voted_state = record { contract_addr = 2; poll_count = 1; total_share = 100; total_deposit = 10 }

pub voted_config : voted.config ≡ some config
unfolding init validate_quorum validate_threshold handle register_contracts receive_cw20 run_hook
    stake_voting_tokens share_of_deposit contract_balance load_token_balance may_load create_poll
    validate_title validate_description validate_link all_execute_data execute_data_of cast_vote
    save count_vote take_snapshot
voted_config = refl

pub voted_total : voted.state ≡ some voted_state
unfolding init validate_quorum validate_threshold handle register_contracts receive_cw20 run_hook
    stake_voting_tokens share_of_deposit contract_balance load_token_balance may_load create_poll
    validate_title validate_description validate_link all_execute_data execute_data_of cast_vote
    save count_vote take_snapshot
voted_total = refl

pub casting_runs :
    cast_vote deps proposed (env_at "alice" 80 0) 1 vote_yes 50 ≡ ok (voted, response_of voting)
unfolding init validate_quorum validate_threshold handle register_contracts receive_cw20 run_hook
    stake_voting_tokens share_of_deposit contract_balance load_token_balance may_load create_poll
    validate_title validate_description validate_link all_execute_data execute_data_of cast_vote
    save count_vote take_snapshot
casting_runs = refl

abbrev pub updated : Storage
updated = storage_of (updating voted) voted

pub updated_runs : updating voted ≡ ok (updated, response_of (updating voted))
unfolding init validate_quorum validate_threshold handle register_contracts receive_cw20 run_hook
    stake_voting_tokens share_of_deposit contract_balance load_token_balance may_load create_poll
    validate_title validate_description validate_link all_execute_data execute_data_of cast_vote
    save count_vote take_snapshot update_config
updated_runs = refl
