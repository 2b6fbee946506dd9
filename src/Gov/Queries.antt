-- ===== src/Gov/Queries.antt =====
-- contracts/gov/src/contract.rs and state.rs: the queries, and the ranges that they read.
use anchor_token_contracts.Base.{
  ℕ, String, Bool, Option, none, some, Result, ok, generic_err, panic, ◌>>=◌, ◌==◌, if◌then◌else◌,
  List, [], ◌∷◌, unwrap_or, unwrap, ok_or, collect,
}
use anchor_token_contracts.Base.Buckets.{Bucket, load, may_load}
use anchor_token_contracts.Cosmwasm.{CanonicalAddr, HumanAddr, Deps, OrderBy}
use anchor_token_contracts.Paging.{page}
use anchor_token_contracts.Gov.Types.{
  Storage, Poll, PollStatus, VoteOption, VoterInfo, ExecuteData, ExecuteMsg, in_progress, is_status,
  no_stake, read_config, read_state, contract_balance,
}

unfoldable pub read_poll_voters :
    Storage → ℕ → Option CanonicalAddr → Option ℕ → Option OrderBy → Bucket VoterInfo
read_poll_voters s poll_id start_after limit order_by =
    page (s.poll_voters poll_id) start_after limit order_by

abbrev pub load_entry : Storage → ℕ × Bool → Result Poll
load_entry s (id, _) = load id s.polls

abbrev second : ℕ × Poll → Result Poll
second (_, p) = ok p

unfoldable pub read_polls :
    Storage → Option PollStatus → Option ℕ → Option ℕ → Option OrderBy → Result (List Poll)
read_polls s (some status) start_after limit order_by =
    collect (load_entry s) (page (s.poll_indexer status) start_after limit order_by)
read_polls s none start_after limit order_by =
    collect second (page s.polls start_after limit order_by)

pub record PollResponse : Type 0 where
  pub id : ℕ
  pub creator : HumanAddr
  pub status : PollStatus
  pub end_height : ℕ
  pub title : String
  pub description : String
  pub link : Option String
  pub deposit_amount : ℕ
  pub execute_data : Option (List ExecuteMsg)
  pub yes_votes : ℕ
  pub no_votes : ℕ
  pub staked_amount : Option ℕ
  pub total_balance_at_end_poll : Option ℕ

pub record StakerResponse : Type 0 where
  pub balance : ℕ
  pub share : ℕ
  pub locked_balance : List (ℕ × VoterInfo)

pub record VotersResponseItem : Type 0 where
  pub voter : HumanAddr
  pub vote : VoteOption
  pub balance : ℕ

pub record StateResponse : Type 0 where
  pub poll_count : ℕ
  pub total_share : ℕ
  pub total_deposit : ℕ

pub record ConfigResponse : Type 0 where
  pub owner : HumanAddr
  pub anchor_token : HumanAddr
  pub quorum : ℕ
  pub threshold : ℕ
  pub voting_period : ℕ
  pub timelock_period : ℕ
  pub expiration_period : ℕ
  pub proposal_deposit : ℕ
  pub snapshot_period : ℕ

-- The votes on polls in progress; a vote on a poll that is not stored panics.
unfoldable pub open_votes : Storage → List (ℕ × VoterInfo) → Result (List (ℕ × VoterInfo))
open_votes s [] = ok []
open_votes s ((poll_id, v) ∷ votes) = do
  poll ← ok_or (may_load poll_id s.polls) panic
  rest ← open_votes s votes
  ok (if is_status poll.status in_progress then (poll_id, v) ∷ rest else rest)

module _ (d : Deps) where
  unfoldable pub query_config : Storage → Result ConfigResponse
  query_config s = do
    config ← read_config s
    owner ← d.human_address config.owner
    anchor_token ← d.human_address config.anchor_token
    ok (record {
      owner = owner;
      anchor_token = anchor_token;
      quorum = config.quorum;
      threshold = config.threshold;
      voting_period = config.voting_period;
      timelock_period = config.timelock_period;
      expiration_period = config.expiration_period;
      proposal_deposit = config.proposal_deposit;
      snapshot_period = config.snapshot_period;
    })

  unfoldable pub query_state : Storage → Result StateResponse
  query_state s = do
    state ← read_state s
    ok (record {
      poll_count = state.poll_count;
      total_share = state.total_share;
      total_deposit = state.total_deposit;
    })

  unfoldable pub execute_msg_of : ExecuteData → Result ExecuteMsg
  execute_msg_of m = do
    contract ← d.human_address m.contract
    ok (record { order = m.order; contract = contract; payload = m.payload })

  unfoldable pub execute_msgs_of : Option (List ExecuteData) → Result (Option (List ExecuteMsg))
  execute_msgs_of none = ok none
  execute_msgs_of (some msgs) = do list ← collect execute_msg_of msgs; ok (some list)

  -- The response of `query_poll`, and of `query_polls` for each poll.
  unfoldable pub poll_response : Poll → Result PollResponse
  poll_response poll = do
    creator ← unwrap (d.human_address poll.creator)
    execute_data ← execute_msgs_of poll.execute_data
    ok (record {
      id = poll.id;
      creator = creator;
      status = poll.status;
      end_height = poll.end_height;
      title = poll.title;
      description = poll.description;
      link = poll.link;
      deposit_amount = poll.deposit_amount;
      execute_data = execute_data;
      yes_votes = poll.yes_votes;
      no_votes = poll.no_votes;
      staked_amount = poll.staked_amount;
      total_balance_at_end_poll = poll.total_balance_at_end_poll;
    })

  unfoldable pub query_poll : Storage → ℕ → Result PollResponse
  query_poll s poll_id = do
    poll ← ok_or (may_load poll_id s.polls) (generic_err "Poll does not exist")
    poll_response poll

  unfoldable pub query_polls :
      Storage
      → Option PollStatus
      → Option ℕ
      → Option ℕ
      → Option OrderBy
      → Result (List PollResponse)
  query_polls s filter start_after limit order_by = do
    polls ← read_polls s filter start_after limit order_by
    collect poll_response polls

  unfoldable pub voter_item : ℕ × VoterInfo → Result VotersResponseItem
  voter_item (voter, info) = do
    voter_human ← d.human_address voter
    ok (record { voter = voter_human; vote = info.vote; balance = info.balance })

  abbrev start_address : Option HumanAddr → Result (Option CanonicalAddr)
  start_address none = ok none
  start_address (some a) = do address ← d.canonical_address a; ok (some address)

  unfoldable pub query_voters :
      Storage → ℕ → Option HumanAddr → Option ℕ → Option OrderBy → Result (List VotersResponseItem)
  query_voters s poll_id start_after limit order_by = do
    poll ← ok_or (may_load poll_id s.polls) (generic_err "Poll does not exist")
    voters ←
        (if is_status poll.status in_progress
          then (do
            start ← start_address start_after
            ok (read_poll_voters s poll_id start limit order_by))
          else ok [])
    collect voter_item voters

  unfoldable pub query_staker : Storage → HumanAddr → Result StakerResponse
  query_staker s address = do
    key ← unwrap (d.canonical_address address)
    config ← read_config s
    state ← read_state s
    let manager = unwrap_or (may_load key s.bank) no_stake
    votes ← open_votes s manager.locked_balance
    balance ← contract_balance d config state
    total_balance ← d.uint_sub balance state.total_deposit
    worth ←
        (if state.total_share == 0
          then ok 0
          else d.multiply_ratio manager.share total_balance state.total_share)
    ok (record { balance = worth; share = manager.share; locked_balance = votes })
