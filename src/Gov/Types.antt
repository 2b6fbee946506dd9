-- ===== src/Gov/Types.antt =====
-- contracts/gov/src/state.rs, packages/anchor_token/src/gov.rs and contracts/gov/src/querier.rs:
-- the state of the governance contract, its messages, and its view of the token balance.
use anchor_token_contracts.Base.{
  ℕ, String, Bool, true, false, Option, some, List, ◌++◌, Result, ok, err, not_found, ◌>>=◌,
  if◌then◌else◌, ok_or, ◌==◌,
}
use anchor_token_contracts.Base.Buckets.{Bucket, save, remove}
use anchor_token_contracts.Cosmwasm.{CanonicalAddr, HumanAddr, Binary, Deps}

pub data PollStatus : Type 0 where
  in_progress passed rejected executed expired : PollStatus

pub data VoteOption : Type 0 where
  vote_yes vote_no : VoteOption

abbrev status_code : PollStatus → ℕ
status_code in_progress = 0
status_code passed = 1
status_code rejected = 2
status_code executed = 3
status_code expired = 4

-- The derived `==` of `PollStatus`.
abbrev pub is_status : PollStatus → PollStatus → Bool
is_status a b = status_code a == status_code b

abbrev pub is_yes : VoteOption → Bool
is_yes vote_yes = true
is_yes vote_no = false

pub record Config : Type 0 where
  pub owner : CanonicalAddr
  pub anchor_token : CanonicalAddr
  pub quorum : ℕ
  pub threshold : ℕ
  pub voting_period : ℕ
  pub timelock_period : ℕ
  pub expiration_period : ℕ
  pub proposal_deposit : ℕ
  pub snapshot_period : ℕ

pub record State : Type 0 where
  pub contract_addr : CanonicalAddr
  pub poll_count : ℕ
  pub total_share : ℕ
  pub total_deposit : ℕ

pub record VoterInfo : Type 0 where
  pub vote : VoteOption
  pub balance : ℕ

pub record TokenManager : Type 0 where
  pub share : ℕ
  pub locked_balance : List (ℕ × VoterInfo)

pub record ExecuteData : Type 0 where
  pub order : ℕ
  pub contract : CanonicalAddr
  pub payload : Binary

-- The message form, with a readable address.
pub record ExecuteMsg : Type 0 where
  pub order : ℕ
  pub contract : HumanAddr
  pub payload : Binary

pub record Poll : Type 0 where
  pub id : ℕ
  pub creator : CanonicalAddr
  pub status : PollStatus
  pub yes_votes : ℕ
  pub no_votes : ℕ
  pub end_height : ℕ
  pub title : String
  pub description : String
  pub link : Option String
  pub execute_data : Option (List ExecuteData)
  pub deposit_amount : ℕ
  pub total_balance_at_end_poll : Option ℕ
  pub staked_amount : Option ℕ

-- The contract's storage: two singletons and the buckets, each under its own prefix.
pub record Storage : Type 0 where
  pub config : Option Config
  pub state : Option State
  pub polls : Bucket Poll
  pub poll_indexer : PollStatus → Bucket Bool
  pub poll_voters : ℕ → Bucket VoterInfo
  pub bank : Bucket TokenManager

abbrev pub read_config : Storage → Result Config
read_config s = ok_or s.config not_found

abbrev pub read_state : Storage → Result State
read_state s = ok_or s.state not_found

abbrev pub store_poll : ℕ → Poll → Storage → Storage
store_poll id p s = record s { polls = save id p s.polls }

abbrev pub index_poll : PollStatus → ℕ → Storage → Storage
index_poll st id s = record s {
  poll_indexer = λ t. if is_status st t then save id true (s.poll_indexer t) else s.poll_indexer t;
}

abbrev pub unindex_poll : PollStatus → ℕ → Storage → Storage
unindex_poll st id s = record s {
  poll_indexer = λ t. if is_status st t then remove id (s.poll_indexer t) else s.poll_indexer t;
}

abbrev pub store_voter : ℕ → CanonicalAddr → VoterInfo → Storage → Storage
store_voter id voter v s = record s {
  poll_voters = λ j. if id == j then save voter v (s.poll_voters j) else s.poll_voters j;
}

abbrev pub remove_voter : ℕ → CanonicalAddr → Storage → Storage
remove_voter id voter s = record s {
  poll_voters = λ j. if id == j then remove voter (s.poll_voters j) else s.poll_voters j;
}

abbrev pub store_state : State → Storage → Storage
store_state st s = record s { state = some st }

abbrev pub store_bank : CanonicalAddr → TokenManager → Storage → Storage
store_bank a m s = record s { bank = save a m s.bank }

-- `TokenManager::default()`
abbrev pub no_stake : TokenManager
no_stake = record { share = 0; locked_balance = List.[] }

concat : Binary → Binary → Binary
concat namespace key = namespace ++ key

abbrev or_else : Result Binary → Binary → Binary
or_else (ok b) d = b
or_else (err e) d = d

module _ (d : Deps) where
  -- A failed query counts as a balance of zero.
  unfoldable pub load_token_balance : HumanAddr → CanonicalAddr → Result ℕ
  unfolding concat
  load_token_balance contract account = d.from_binary_uint (
      or_else (d.query_raw contract (concat (d.to_length_prefixed "balance") (d.as_slice account)))
        (d.to_binary_uint 0))

  -- The expression that five operations share: the contract's balance of the staked token.
  unfoldable pub contract_balance : Config → State → Result ℕ
  contract_balance config state = do
    token ← d.human_address config.anchor_token
    load_token_balance token state.contract_addr
