-- ===== src/Gov/Laws/Ending.antt =====
-- A poll whose voting period is over can be ended.
use anchor_token_contracts.Base.{
  ℕ, ◌+◌, ◌-◌, ◌*◌, ◌≤◌, ◌<◌, ◌≡◌, ◌≢◌, Bool, none, some, ok, arith, u128_mod, add_u128, returned,
  List,
}
use anchor_token_contracts.Base.Buckets.{may_load}
use anchor_token_contracts.Base.Sums.{weight-le-sum_by}
use anchor_token_contracts.Cosmwasm.{
  Deps, IsCosmwasm, Env, HandleResponse, HumanAddr, CosmosMsg, decimal_one,
}
use anchor_token_contracts.Gov.Types.{Storage, State, Config, Poll, in_progress, contract_balance}
use anchor_token_contracts.Gov.Settings.{InitMsg, init}
use anchor_token_contracts.Gov.Invariant.Index.{Reach}
use anchor_token_contracts.Gov.Invariant.Deposits.{deposit_of, total_deposit_backed}
use anchor_token_contracts.Gov.Polls.End.{
  Outcome, end_poll, poll_quorum, decide_poll, refund_messages,
}

-- The stake that `end_poll` reads can be divided by: nobody holds a share, or the snapshot or the
-- balance less the deposits is not zero.
pub data IsMeasured (d : Deps) (config : Config) (state : State) (p : Poll) : Type 0 where
  nobody : state.total_share ≡ 0 → IsMeasured d config state p
  snapshot : (w : ℕ) → p.staked_amount ≡ some w → w ≢ 0 → IsMeasured d config state p
  balance :
      (b : ℕ)
      → p.staked_amount ≡ none
      → contract_balance d config state ≡ ok b
      → state.total_deposit < b
      → IsMeasured d config state p

module _ (d : Deps) (laws : IsCosmwasm d) where
  poll_quorum_returns :
      (config : Config) (state : State) (p : Poll) (t : ℕ)
      → IsMeasured d config state p
      → t * decimal_one < u128_mod
      → (ws : ℕ × ℕ) × (poll_quorum d config state p t ≡ ok ws)
  unfolding poll_quorum
  poll_quorum_returns config state p t (nobody z) fits = ((0, 0), ground arith)
  poll_quorum_returns config state p t (snapshot w taken pos) fits =
      returned _ (λ e h. ground (arith, laws.decimal_fits t w pos fits))
  poll_quorum_returns config state p t (balance b none_taken read some_stake) fits =
      let stake = b - state.total_deposit in
      let pos : stake ≢ 0 = omega (arith, some_stake) in
      returned _ (λ e h. ground (
        arith,
        laws.sub_fits b state.total_deposit (omega (arith, some_stake)),
        laws.decimal_fits t stake pos fits,
      ))

  decide_poll_returns :
      (config : Config) (p : Poll) (quorum : ℕ)
      → (p.yes_votes + p.no_votes) * decimal_one < u128_mod
      → (o : Outcome) × (decide_poll d config p (p.yes_votes + p.no_votes) quorum ≡ ok o)
  unfolding decide_poll
  decide_poll_returns config p quorum fits =
      returned _ (λ e h. ground (arith, laws.decimal_fits p.yes_votes (p.yes_votes + p.no_votes)))

  refund_messages_returns :
      (config : Config) (p : Poll) (reached : Bool) (token creator : HumanAddr)
      → d.human_address config.anchor_token ≡ ok token
      → d.human_address p.creator ≡ ok creator
      → (ms : List CosmosMsg) × (refund_messages d config p reached ≡ ok ms)
  unfolding refund_messages
  refund_messages_returns config p reached token creator named known =
      returned _ (λ e h. ground arith)

  -- The deposit is part of the total of the deposits.
  end_poll_covered :
      (s : Storage) (env : Env) (id : ℕ) (p : Poll) (config : Config) (state : State)
      (token creator : HumanAddr)
      → may_load id s.polls ≡ some p
      → p.status ≡ in_progress
      → p.end_height ≤ env.block_height
      → s.config ≡ some config
      → s.state ≡ some state
      → (p.yes_votes + p.no_votes) * decimal_one < u128_mod
      → IsMeasured d config state p
      → p.deposit_amount ≤ state.total_deposit
      → d.human_address config.anchor_token ≡ ok token
      → d.human_address p.creator ≡ ok creator
      → (s' : Storage) × (r : HandleResponse) × (end_poll d s env id ≡ ok (s', r))
  unfolding end_poll
  end_poll_covered s env id p config state token creator found was over conf stored fits measured
        part named known =
      let t = p.yes_votes + p.no_votes in
      let (ws, weighed) = poll_quorum_returns config state p t measured fits in
      let (o, decided) = decide_poll_returns config p ws.0 fits in
      let (ms, refund) =
        refund_messages_returns config p o.quorum_reached token creator named known in
      let sub = laws.sub_fits state.total_deposit p.deposit_amount part in
      let sum : add_u128 p.yes_votes p.no_votes ≡ ok t = ground (arith, fits) in
      let (sr, e) = returned (end_poll d s env id) (λ bad h.
        ground (arith, found, was, over, conf, stored, sum, weighed, decided, refund, sub)) in
      (sr.0, sr.1, e)

  -- In every state that any sequence of successful messages reaches from `init`, a poll in
  -- progress whose voting period is over can be ended by anyone: if the votes, in units of 10⁻¹⁸,
  -- fit 128 bits, there is a stake to measure them by, and the addresses of the token and of the
  -- poll's creator can be translated, `end_poll` succeeds.
  pub end_poll_returns :
      (init_env : Env) (m : InitMsg) (s t : Storage) (env : Env) (id : ℕ) (p : Poll)
      (config : Config) (state : State) (token creator : HumanAddr)
      → init d init_env m ≡ ok s
      → Reach d s t
      → may_load id t.polls ≡ some p
      → p.status ≡ in_progress
      → p.end_height ≤ env.block_height
      → t.config ≡ some config
      → t.state ≡ some state
      → (p.yes_votes + p.no_votes) * decimal_one < u128_mod
      → IsMeasured d config state p
      → d.human_address config.anchor_token ≡ ok token
      → d.human_address p.creator ≡ ok creator
      → (t' : Storage) × (r : HandleResponse) × (end_poll d t env id ≡ ok (t', r))
  end_poll_returns init_env m s t env id p config state token creator start run found was over conf
        stored fits measured named known =
      let total = total_deposit_backed d laws init_env m s t start run in
      let part = weight-le-sum_by deposit_of id t.polls in
      let covered : p.deposit_amount ≤ state.total_deposit =
        ground (arith, total, part, found, was, stored) in
      end_poll_covered t env id p config state token creator found was over conf stored fits
        measured covered named known
