-- ===== src/Gov/Laws/Voting.antt =====
-- `cast_vote`: who may vote, with how much, and what is recorded.
use anchor_token_contracts.Base.{
  ℕ, ◌+◌, ◌-◌, ◌*◌, ◌/◌, ◌≤◌, ◌≡◌, ◌≢◌, refl, none, some, ok, arith, [], ◌∷◌, ◌++◌, if◌then◌else◌,
  unwrap_or, subst,
}
use anchor_token_contracts.Base.Buckets.{may_load, may_load-save}
use anchor_token_contracts.Cosmwasm.{Deps, Env, HandleResponse, CanonicalAddr, IsCosmwasm}
use anchor_token_contracts.Cosmwasm.Laws.{sub_value, ratio_value}
use anchor_token_contracts.Gov.Types.{
  Storage, State, Config, Poll, VoteOption, VoterInfo, TokenManager, in_progress, is_yes,
  contract_balance, no_stake,
}
use anchor_token_contracts.Gov.Polls.Vote.{cast_vote, count_vote, take_snapshot}
use anchor_token_contracts.Gov.Effects.Polls.{cast_vote_effect}

abbrev pub info_of : VoteOption → ℕ → VoterInfo
info_of vote amount = record { vote = vote; balance = amount }

abbrev pub Counted : Deps → Storage → Env → ℕ → VoteOption → ℕ → Storage → Type 0
Counted d s env id vote amount s' =
    (key : CanonicalAddr) × (d.canonical_address env.sender ≡ ok key)
    × (p : Poll) × (may_load id s.polls ≡ some p)
    × (p.status ≡ in_progress)
    × (env.block_height ≤ p.end_height)
    × (may_load key (s.poll_voters id) ≡ none)
    × (config : Config) × (s.config ≡ some config)
    × (state : State) × (s.state ≡ some state)
    × (balance : ℕ) × (contract_balance d config state ≡ ok balance)
    × (state.total_deposit ≤ balance)
    × (state.total_share ≢ 0)
    × (amount
        ≤ (unwrap_or (may_load key s.bank) no_stake).share
          * (balance - state.total_deposit)
          / state.total_share)
    × (q : Poll) × (may_load id s'.polls ≡ some q)
    × (q.yes_votes ≡ (if is_yes vote then p.yes_votes + amount else p.yes_votes))
    × (q.no_votes ≡ (if is_yes vote then p.no_votes else p.no_votes + amount))
    × (may_load key (s'.poll_voters id) ≡ some (info_of vote amount))
    × (m : TokenManager) × (may_load key s'.bank ≡ some m)
    × (m.share ≡ (unwrap_or (may_load key s.bank) no_stake).share)
    × (m.locked_balance
        ≡ (unwrap_or (may_load key s.bank) no_stake).locked_balance
          ++ (id, info_of vote amount) ∷ [])

module _ (d : Deps) (laws : IsCosmwasm d) where
  pub count_vote_value :
      (config : Config) (p : Poll) (vote : VoteOption) (amount time balance : ℕ) {counted : Poll}
      → count_vote d p vote amount ≡ ok counted
      → let q = take_snapshot d config counted time balance in
        (q.yes_votes ≡ (if is_yes vote then p.yes_votes + amount else p.yes_votes))
        × (q.no_votes ≡ (if is_yes vote then p.no_votes else p.no_votes + amount))
  unfolding count_vote take_snapshot
  count_vote_value config p vote amount time balance h =
      ground (arith, laws.add_cases p.yes_votes amount, laws.add_cases p.no_votes amount)

  -- A vote that is counted was cast on a poll in progress, not after its end, by an account
  -- without a vote on it, with at most the tokens that the account's share is worth. It adds
  -- its amount to the tally of its side alone, and is recorded for the poll and, as locked, for
  -- the account.
  pub cast_vote_counts :
      (s : Storage) (env : Env) (id : ℕ) (vote : VoteOption) (amount : ℕ) {s' : Storage}
      {r : HandleResponse}
      → cast_vote d s env id vote amount ≡ ok (s', r)
      → Counted d s env id vote amount s'
  cast_vote_counts s env id vote amount h =
      let (
        key, k, p, found, config, conf, state, stored, balance, read, total, left, stake, worth,
        counted, c, was, height, fresh, enough, e,
      ) =
        cast_vote_effect d s env id vote amount h in
      let old = unwrap_or (may_load key s.bank) no_stake in
      let q = take_snapshot d config counted (p.end_height - env.block_height) total in
      let tally = count_vote_value config p vote amount (p.end_height - env.block_height) total c in
      let (covered, rest) = sub_value laws balance state.total_deposit left in
      let (held, price) = ratio_value laws old.share total state.total_share worth in
      (
        key,
        k,
        p,
        found,
        was,
        height,
        fresh,
        config,
        conf,
        state,
        stored,
        balance,
        read,
        covered,
        held,
        subst (λ t. amount ≤ old.share * t / state.total_share) rest
            (subst (λ t. amount ≤ t) price enough),
        q,
        rw e (ground (arith, may_load-save id id q s.polls)),
        tally.0,
        tally.1,
        rw e (ground (arith, may_load-save key key (info_of vote amount) (s.poll_voters id))),
        record old { locked_balance = old.locked_balance ++ (id, info_of vote amount) ∷ [] },
        rw e (
            ground (
              arith,
              may_load-save key key
                  (record old {
                    locked_balance = old.locked_balance ++ (id, info_of vote amount) ∷ [];
                  })
                  s.bank,
            )),
        refl,
        refl,
      )
