-- ===== src/Gov/Effects/Shares.antt =====
-- What an operation on shares has found and written when it succeeds.
use anchor_token_contracts.Base.{
  ℕ, ◌+◌, ◌-◌, ◌*◌, ◌/◌, ◌≤◌, ◌≡◌, ◌≢◌, Bool, true, false, Option, some, ok, arith, List, [], ◌∷◌,
  unwrap_or, if◌then◌else◌,
}
use anchor_token_contracts.Base.Buckets.{may_load}
use anchor_token_contracts.Cosmwasm.{Deps, Env, HandleResponse, HumanAddr, CanonicalAddr}
use anchor_token_contracts.Gov.Types.{
  Storage, State, Config, Poll, VoterInfo, TokenManager, in_progress, is_status, contract_balance,
  store_state, store_bank, remove_voter, no_stake,
}
use anchor_token_contracts.Gov.Staking.{
  release_votes, largest_vote, compute_locked_balance, share_of_deposit, stake_voting_tokens,
  send_tokens, share_to_withdraw, amount_to_withdraw, pay_out, withdraw_voting_tokens,
}

-- Releasing votes touches nothing but the lists of voters.
pub record OnlyVoters (s s' : Storage) : Type 0 where
  pub same_config : s'.config ≡ s.config
  pub same_state : s'.state ≡ s.state
  pub same_polls : s'.polls ≡ s.polls
  pub same_indexer : s'.poll_indexer ≡ s.poll_indexer
  pub same_bank : s'.bank ≡ s.bank

remove_voter-OnlyVoters :
    (id : ℕ) (voter : CanonicalAddr) (keep : Bool) (s s' : Storage)
    → OnlyVoters (if keep then s else remove_voter id voter s) s'
    → OnlyVoters s s'
remove_voter-OnlyVoters id voter true s s' o = o
remove_voter-OnlyVoters id voter false s s' o = record {
  same_config = o.same_config;
  same_state = o.same_state;
  same_polls = o.same_polls;
  same_indexer = o.same_indexer;
  same_bank = o.same_bank;
}

-- The recursive call inside one that succeeds.
pub release_votes_rest :
    (voter : CanonicalAddr) (id : ℕ) (v : VoterInfo) (votes : List (ℕ × VoterInfo)) (s : Storage)
    {r : List (ℕ × VoterInfo) × Storage}
    → release_votes voter ((id, v) ∷ votes) s ≡ ok r
    → (p : Poll) × (may_load id s.polls ≡ some p)
      × (rest : List (ℕ × VoterInfo) × Storage) × (release_votes voter votes
            (if is_status p.status in_progress then s else remove_voter id voter s)
          ≡ ok rest)
      × (r ≡ (if is_status p.status in_progress then (id, v) ∷ rest.0 else rest.0, rest.1))
unfolding release_votes
release_votes_rest voter id v votes s h = ground arith

pub release_votes-OnlyVoters :
    (voter : CanonicalAddr) (votes : List (ℕ × VoterInfo)) (s : Storage)
    (r : List (ℕ × VoterInfo) × Storage)
    → release_votes voter votes s ≡ ok r
    → OnlyVoters s r.1
unfolding release_votes
release_votes-OnlyVoters voter [] s r h = ground arith
release_votes-OnlyVoters voter ((id, v) ∷ votes) s r h =
    let (p, _, rest, e, whole) = release_votes_rest voter id v votes s h in
    rw whole (
      remove_voter-OnlyVoters id voter (is_status p.status in_progress) s rest.1
        (release_votes-OnlyVoters voter votes _ rest e))

module _ (d : Deps) where
  pub stake_effect :
      (s : Storage) (sender : HumanAddr) (amount : ℕ) {s' : Storage} {r : HandleResponse}
      → stake_voting_tokens d s sender amount ≡ ok (s', r)
      → (key : CanonicalAddr) × (d.canonical_address sender ≡ ok key)
        × (config : Config) × (s.config ≡ some config)
        × (state : State) × (s.state ≡ some state)
        × (balance : ℕ) × (contract_balance d config state ≡ ok balance)
        × (set_aside : ℕ) × (d.uint_add state.total_deposit amount ≡ ok set_aside)
        × (total_balance : ℕ) × (d.uint_sub balance set_aside ≡ ok total_balance)
        × (share : ℕ) × (share_of_deposit d amount total_balance state.total_share ≡ ok share)
        × (user_share : ℕ) × (d.uint_add (unwrap_or (may_load key s.bank) no_stake).share share
            ≡ ok user_share)
        × (total_share : ℕ) × (d.uint_add state.total_share share ≡ ok total_share)
        × (amount ≢ 0)
        × (s'
            ≡ store_bank key
                (record {
                  share = user_share;
                  locked_balance = (unwrap_or (may_load key s.bank) no_stake).locked_balance;
                })
                (store_state (record state { total_share = total_share }) s))
  unfolding stake_voting_tokens
  stake_effect s sender amount h = ground arith

  pub pay_out_effect :
      (s : Storage) (config : Config) (state : State) (manager : TokenManager) (key : CanonicalAddr)
      (locked_share withdraw_share withdraw_amount : ℕ) {s' : Storage} {r : HandleResponse}
      → pay_out d s config state manager key locked_share withdraw_share withdraw_amount
        ≡ ok (s', r)
      → (locked_share + withdraw_share ≤ manager.share)
        × (withdraw_share ≤ state.total_share)
        × (send_tokens d config.anchor_token key withdraw_amount "withdraw" ≡ ok r)
        × (s'
            ≡ store_state
                (record state { total_share = state.total_share - withdraw_share })
                (store_bank key (record manager { share = manager.share - withdraw_share }) s))
  unfolding pay_out
  pay_out_effect s config state manager key locked_share withdraw_share withdraw_amount h =
      ground arith

  pub withdraw_effect :
      (s : Storage) (env : Env) (amount : Option ℕ) {s' : Storage} {r : HandleResponse}
      → withdraw_voting_tokens d s env amount ≡ ok (s', r)
      → (key : CanonicalAddr) × (d.canonical_address env.sender ≡ ok key)
        × (manager : TokenManager) × (may_load key s.bank ≡ some manager)
        × (config : Config) × (s.config ≡ some config)
        × (state : State) × (s.state ≡ some state)
        × (balance : ℕ) × (contract_balance d config state ≡ ok balance)
        × (total_balance : ℕ) × (d.uint_sub balance state.total_deposit ≡ ok total_balance)
        × (votes : List (ℕ × VoterInfo) × Storage) × (release_votes key manager.locked_balance s
            ≡ ok votes)
        × (withdraw_share : ℕ) × (share_to_withdraw d amount manager.share
              (largest_vote votes.0 * state.total_share / total_balance)
              state.total_share
              total_balance
            ≡ ok withdraw_share)
        × (withdraw_amount : ℕ) × (amount_to_withdraw d amount withdraw_share state.total_share
              total_balance
            ≡ ok withdraw_amount)
        × (total_balance ≢ 0)
        × (pay_out d votes.1 config state
              (record manager { locked_balance = votes.0 })
              key
              (largest_vote votes.0 * state.total_share / total_balance)
              withdraw_share
              withdraw_amount
            ≡ ok (s', r))
  unfolding withdraw_voting_tokens compute_locked_balance
  withdraw_effect s env amount h = ground arith
