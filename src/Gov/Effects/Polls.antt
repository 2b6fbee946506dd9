-- ===== src/Gov/Effects/Polls.antt =====
-- What an operation on polls has found and written when it succeeds.
use anchor_token_contracts.Base.{
  ℕ, ◌+◌, ◌-◌, ◌≤◌, ◌≡◌, Option, none, some, ok, arith, String, List, [], ◌∷◌, ◌++◌, unwrap_or,
}
use anchor_token_contracts.Base.Buckets.{may_load}
use anchor_token_contracts.Cosmwasm.{Deps, Env, HandleResponse, HumanAddr, CanonicalAddr, CosmosMsg}
use anchor_token_contracts.Gov.Types.{
  Storage, State, Config, Poll, VoteOption, VoterInfo, ExecuteMsg, ExecuteData, in_progress, passed,
  executed, expired, contract_balance, store_poll, store_state, index_poll, store_bank, store_voter,
  no_stake,
}
use anchor_token_contracts.Gov.Polls.Create.{create_poll, all_execute_data}
use anchor_token_contracts.Gov.Polls.End.{
  Outcome, end_poll, close_poll, decide_poll, poll_quorum, refund_messages,
}
use anchor_token_contracts.Gov.Polls.Close.{execute_poll, expire_poll, snapshot_poll, move_passed}
use anchor_token_contracts.Gov.Polls.Vote.{cast_vote, count_vote, take_snapshot}

-- The poll that `create_poll` stores.
abbrev pub fresh_poll :
    ℕ → CanonicalAddr → ℕ → String → String → Option String → Option (List ExecuteData) → ℕ → Poll
fresh_poll id creator end_height title description link execute_data deposit = record {
  id = id;
  creator = creator;
  status = in_progress;
  yes_votes = 0;
  no_votes = 0;
  end_height = end_height;
  title = title;
  description = description;
  link = link;
  execute_data = execute_data;
  deposit_amount = deposit;
  total_balance_at_end_poll = none;
  staked_amount = none;
}

-- The storage that `create_poll` leaves.
abbrev pub with_poll : Poll → State → ℕ → Storage → Storage
with_poll p state total_deposit s =
    store_state (record state { poll_count = p.id; total_deposit = total_deposit })
      (index_poll in_progress p.id (store_poll p.id p s))

-- The storage that `cast_vote` leaves.
abbrev pub voted_storage :
    Deps → Storage → ℕ → CanonicalAddr → Config → Poll → ℕ → ℕ → VoteOption → ℕ → Storage
voted_storage d s id key config counted time_to_end total_balance vote amount =
    let info : VoterInfo = record { vote = vote; balance = amount } in
    let manager = unwrap_or (may_load key s.bank) no_stake in
    store_poll id (take_snapshot d config counted time_to_end total_balance) (
      store_voter id key info (
        store_bank key
          (record manager { locked_balance = manager.locked_balance ++ (id, info) ∷ [] }) s))

module _ (d : Deps) where
  pub execute_poll_effect :
      (s : Storage) (env : Env) (id : ℕ) {s' : Storage} {r : HandleResponse}
      → execute_poll d s env id ≡ ok (s', r)
      → (p : Poll) × (may_load id s.polls ≡ some p)
        × (p.status ≡ passed)
        × (s' ≡ move_passed id p executed s)
  unfolding execute_poll
  execute_poll_effect s env id h = ground arith

  pub expire_poll_effect :
      (s : Storage) (env : Env) (id : ℕ) {s' : Storage} {r : HandleResponse}
      → expire_poll d s env id ≡ ok (s', r)
      → (p : Poll) × (may_load id s.polls ≡ some p)
        × (p.status ≡ passed)
        × (s' ≡ move_passed id p expired s)
  unfolding expire_poll
  expire_poll_effect s env id h = ground arith

  pub snapshot_poll_effect :
      (s : Storage) (env : Env) (id : ℕ) {s' : Storage} {r : HandleResponse}
      → snapshot_poll d s env id ≡ ok (s', r)
      → (p : Poll) × (may_load id s.polls ≡ some p)
        × (config : Config) × (s.config ≡ some config)
        × (state : State) × (s.state ≡ some state)
        × (balance : ℕ) × (contract_balance d config state ≡ ok balance)
        × (amount : ℕ) × (d.uint_sub balance state.total_deposit ≡ ok amount)
        × (p.status ≡ in_progress)
        × (p.staked_amount ≡ none)
        × (s' ≡ store_poll id (record p { staked_amount = some amount }) s)
  unfolding snapshot_poll
  snapshot_poll_effect s env id h = ground arith

  pub end_poll_effect :
      (s : Storage) (env : Env) (id : ℕ) {s' : Storage} {r : HandleResponse}
      → end_poll d s env id ≡ ok (s', r)
      → (p : Poll) × (may_load id s.polls ≡ some p)
        × (config : Config) × (s.config ≡ some config)
        × (state : State) × (s.state ≡ some state)
        × (p.status ≡ in_progress)
        × (p.end_height ≤ env.block_height)
        × (weights : ℕ × ℕ) × (poll_quorum d config state p (p.yes_votes + p.no_votes) ≡ ok weights)
        × (o : Outcome) × (decide_poll d config p (p.yes_votes + p.no_votes) weights.0 ≡ ok o)
        × (messages : List CosmosMsg) × (refund_messages d config p o.quorum_reached ≡ ok messages)
        × (total_deposit : ℕ) × (d.uint_sub state.total_deposit p.deposit_amount ≡ ok total_deposit)
        × (r.messages ≡ messages)
        × (s' ≡ close_poll d s id p state total_deposit o.status weights.1)
  unfolding end_poll
  end_poll_effect s env id h = ground arith

  pub cast_vote_effect :
      (s : Storage) (env : Env) (id : ℕ) (vote : VoteOption) (amount : ℕ) {s' : Storage}
      {r : HandleResponse}
      → cast_vote d s env id vote amount ≡ ok (s', r)
      → (key : CanonicalAddr) × (d.canonical_address env.sender ≡ ok key)
        × (p : Poll) × (may_load id s.polls ≡ some p)
        × (config : Config) × (s.config ≡ some config)
        × (state : State) × (s.state ≡ some state)
        × (balance : ℕ) × (contract_balance d config state ≡ ok balance)
        × (total_balance : ℕ) × (d.uint_sub balance state.total_deposit ≡ ok total_balance)
        × (stake : ℕ) × (d.multiply_ratio
              (unwrap_or (may_load key s.bank) no_stake).share
              total_balance
              state.total_share
            ≡ ok stake)
        × (counted : Poll) × (count_vote d p vote amount ≡ ok counted)
        × (p.status ≡ in_progress)
        × (env.block_height ≤ p.end_height)
        × (may_load key (s.poll_voters id) ≡ none)
        × (amount ≤ stake)
        × (s'
            ≡ voted_storage d s id key config counted
                (p.end_height - env.block_height)
                total_balance
                vote
                amount)
  unfolding cast_vote
  cast_vote_effect s env id vote amount h = ground arith

  pub create_poll_effect :
      (s : Storage) (env : Env) (proposer : HumanAddr) (deposit : ℕ) (title description : String)
      (link : Option String) (msgs : Option (List ExecuteMsg)) {s' : Storage} {r : HandleResponse}
      → create_poll d s env proposer deposit title description link msgs ≡ ok (s', r)
      → (config : Config) × (s.config ≡ some config)
        × (state : State) × (s.state ≡ some state)
        × (total_deposit : ℕ) × (d.uint_add state.total_deposit deposit ≡ ok total_deposit)
        × (execute_data : Option (List ExecuteData)) × (all_execute_data d msgs ≡ ok execute_data)
        × (creator : CanonicalAddr) × (d.canonical_address proposer ≡ ok creator)
        × (config.proposal_deposit ≤ deposit)
        × (s'
            ≡ with_poll
                (fresh_poll
                  (state.poll_count + 1)
                  creator
                  (env.block_height + config.voting_period)
                  title
                  description
                  link
                  execute_data
                  deposit)
                state
                total_deposit
                s)
  unfolding create_poll
  create_poll_effect s env proposer deposit title description link msgs h = ground arith
