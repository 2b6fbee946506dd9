-- ===== src/Gov/Example.antt =====
-- The governance contract with one poll and two stakers, and three of its messages.
use anchor_token_contracts.Base.{
  ℕ, ◌*◌, ◌^◌, ◌≡◌, refl, true, none, some, Result, ok, err, arith, List, [], ◌∷◌, if◌then◌else◌,
}
use anchor_token_contracts.Base.Buckets.{may_load, save}
use anchor_token_contracts.Cosmwasm.{
  Deps, HandleResponse, Answers, IsCosmwasm, example_deps, example_laws, env_at,
}
use anchor_token_contracts.Gov.Types.{
  ExecuteData, Storage, Config, Poll, in_progress, is_status, vote_yes, load_token_balance,
  contract_balance,
}
use anchor_token_contracts.Gov.Settings.{InitMsg, ConfigUpdate, update_config, no_response}
use anchor_token_contracts.Gov.Polls.End.{
  end_poll, poll_quorum, decide_poll, refund_messages, close_poll,
}
use anchor_token_contracts.Gov.Polls.Vote.{cast_vote, count_vote, take_snapshot}
use anchor_token_contracts.Gov.Contract.{handle, update}
use anchor_token_contracts.Gov.Invariant.Index.{IsIndexed}

abbrev pub storage_of : Result (Storage × HandleResponse) → Storage → Storage
storage_of (ok (s, r)) t = s
storage_of (err e) t = t

abbrev pub response_of : Result (Storage × HandleResponse) → HandleResponse
response_of (ok (s, r)) = r
response_of (err e) = no_response

-- The contract holds 110 tokens, 10 of them a deposit.
abbrev pub deps : Deps
deps = example_deps 110

-- The answers of a token contract that holds so many tokens of every account.
abbrev pub holding : ℕ → Answers
holding balance = (example_deps balance).query_raw

abbrev pub laws : IsCosmwasm deps
laws = example_laws 110

abbrev pub config : Config
config = record {
  owner = 5;
  anchor_token = 1;
  quorum = 10 ^ 17;
  threshold = 5 * 10 ^ 17;
  voting_period = 100;
  timelock_period = 20;
  expiration_period = 50;
  proposal_deposit = 10;
  snapshot_period = 30;
}

abbrev pub calls : List ExecuteData
calls =
    record { order = 2; contract = 1; payload = 8 ∷ [] }
    ∷ record { order = 1; contract = 2; payload = 9 ∷ [] }
    ∷ []

abbrev pub poll : Poll
poll = record {
  id = 1;
  creator = 4;
  status = in_progress;
  yes_votes = 0;
  no_votes = 0;
  end_height = 100;
  title = "title";
  description = "description";
  link = none;
  execute_data = some calls;
  deposit_amount = 10;
  total_balance_at_end_poll = none;
  staked_amount = none;
}

-- One poll, two stakers.
abbrev pub storage_with : Poll → Storage
storage_with p = record {
  config = some config;
  state =
      some (record { contract_addr = 2; poll_count = 1; total_share = 100; total_deposit = 10 });
  polls = (1, p) ∷ [];
  poll_indexer = λ st. if is_status p.status st then (1, true) ∷ [] else [];
  poll_voters = λ _. [];
  bank =
      (3, record { share = 60; locked_balance = [] })
      ∷ (4, record { share = 40; locked_balance = [] })
      ∷ [];
}

abbrev pub start : Storage
start = storage_with poll

-- Alice votes yes with 50 tokens at height 80.
abbrev pub voting : Result (Storage × HandleResponse)
voting = cast_vote deps start (env_at "alice" 80 0) 1 vote_yes 50

abbrev pub voted : Storage
voted = storage_of voting start

abbrev pub ended : Result (Storage × HandleResponse)
ended = end_poll deps voted (env_at "bob" 100 0) 1

pub storage_with-IsIndexed : (p : Poll) → p.id ≡ 1 → IsIndexed (storage_with p)
unfolding may_load
storage_with-IsIndexed p e = record {
  indexed = λ st id. ground arith;
  own_id = λ id q h. ground arith;
  numbered = λ id q h. ground arith;
}

pub voted_runs : voting ≡ ok (voted, response_of voting)
unfolding cast_vote may_load save contract_balance load_token_balance count_vote take_snapshot
voted_runs = refl

-- Bob ends the poll at height 100.
pub ended_runs : ended ≡ ok (storage_of ended voted, response_of ended)
unfolding voted_runs end_poll poll_quorum decide_poll refund_messages close_poll
ended_runs = refl

-- Carol, the owner, halves the quorum.
abbrev pub halve : ConfigUpdate
halve = record {
  owner = none;
  quorum = some (5 * 10 ^ 16);
  threshold = none;
  voting_period = none;
  timelock_period = none;
  expiration_period = none;
  proposal_deposit = none;
  snapshot_period = none;
}

abbrev pub updating : Storage → Result (Storage × HandleResponse)
updating s = handle deps s (env_at "carol" 90 0) (update halve)

pub updating_runs : updating voted ≡ ok (storage_of (updating voted) voted, no_response)
unfolding handle update_config voted_runs
updating_runs = refl

abbrev pub first_config : InitMsg
first_config = record {
  quorum = 10 ^ 17;
  threshold = 5 * 10 ^ 17;
  voting_period = 100;
  timelock_period = 20;
  expiration_period = 50;
  proposal_deposit = 10;
  snapshot_period = 30;
}
