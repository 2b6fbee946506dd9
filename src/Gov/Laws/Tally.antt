-- ===== src/Gov/Laws/Tally.antt =====
-- `end_poll`: how a poll is decided, and what becomes of its deposit.
use anchor_token_contracts.Base.{
  ℕ, ◌+◌, ◌*◌, ◌/◌, ◌≤◌, ◌≡◌, ◌≢◌, refl, Bool, true, false, none, some, ok, arith, inl, inr, List,
  [], ◌∷◌, ◌==◌, if◌then◌else◌, ltb, leb, ◌&&◌, not, ℕ_discrete, Option-cases, subst₂, sym,
}
use anchor_token_contracts.Base.Buckets.{Bucket, save, may_load, may_load-save}
use anchor_token_contracts.Cosmwasm.{
  Deps, Env, HandleResponse, HumanAddr, CosmosMsg, IsCosmwasm, decimal_one, transfer,
}
use anchor_token_contracts.Gov.Types.{
  Storage, State, Config, Poll, PollStatus, in_progress, passed, rejected, contract_balance,
}
use anchor_token_contracts.Gov.Polls.End.{
  Outcome, end_poll, close_poll, poll_quorum, decide_poll, refund_messages,
}
use anchor_token_contracts.Gov.Effects.Polls.{end_poll_effect}

abbrev pub tallied : Poll → ℕ
tallied p = p.yes_votes + p.no_votes

-- The stake that a poll is measured by: nothing if nobody holds a share, else the snapshot,
-- else the balance less the deposits.
pub data Weighs (d : Deps) (config : Config) (state : State) (p : Poll) (w : ℕ) : Type 0 where
  nobody : state.total_share ≡ 0 → w ≡ 0 → Weighs d config state p w
  snapshot : state.total_share ≢ 0 → p.staked_amount ≡ some w → Weighs d config state p w
  balance :
      (b : ℕ)
      → state.total_share ≢ 0
      → p.staked_amount ≡ none
      → contract_balance d config state ≡ ok b
      → w + state.total_deposit ≡ b
      → Weighs d config state p w

-- The quorum test in fractions of 10⁻¹⁸, rounded down; nobody holding a share counts as zero.
abbrev pub reaches_quorum : Config → State → Poll → ℕ → Bool
reaches_quorum config state p w =
    not (tallied p == 0)
    && leb config.quorum (if state.total_share == 0 then 0 else tallied p * decimal_one / w)

abbrev pub exceeds_threshold : Config → Poll → Bool
exceeds_threshold config p = ltb config.threshold (p.yes_votes * decimal_one / tallied p)

-- The refund: nothing, or the deposit in one transfer to the poll's creator.
pub data IsRefund (d : Deps) (config : Config) (p : Poll) (reached : Bool) (ms : List CosmosMsg)
    : Type 0 where
  kept : reached ≡ false → ms ≡ [] → IsRefund d config p reached ms
  nothing_deposited :
      reached ≡ true → p.deposit_amount ≡ 0 → ms ≡ [] → IsRefund d config p reached ms
  refunded :
      (token creator : HumanAddr)
      → reached ≡ true
      → d.human_address config.anchor_token ≡ ok token
      → d.human_address p.creator ≡ ok creator
      → ms
        ≡ record { contract_addr = token; msg = transfer creator p.deposit_amount; coins = [] } ∷ []
      → IsRefund d config p reached ms

abbrev pub Decided : Deps → Storage → Env → ℕ → Storage → HandleResponse → Type 0
Decided d s env id s' r =
    (p : Poll) × (may_load id s.polls ≡ some p)
    × (config : Config) × (s.config ≡ some config)
    × (state : State) × (s.state ≡ some state)
    × (p.status ≡ in_progress)
    × (p.end_height ≤ env.block_height)
    × (w : ℕ) × Weighs d config state p w
    × IsRefund d config p (reaches_quorum config state p w) r.messages
    × (may_load id s'.polls
        ≡ some (record p {
          status =
              if reaches_quorum config state p w && exceeds_threshold config p
              then passed
              else rejected;
          total_balance_at_end_poll = some w;
        }))

stored_poll :
    (id : ℕ) (p : Poll) (w : ℕ) (st st' : PollStatus) (polls : Bucket Poll)
    → st ≡ st'
    → may_load id (save id (record p { status = st; total_balance_at_end_poll = some w }) polls)
      ≡ some (record p { status = st'; total_balance_at_end_poll = some w })
stored_poll id p w st st' polls e = ground (
  arith,
  may_load-save id id (record p { status = st; total_balance_at_end_poll = some w }) polls,
)

module _ (d : Deps) (laws : IsCosmwasm d) where
  poll_quorum_balance :
      (config : Config) (state : State) (p : Poll) (t : ℕ) {ws : ℕ × ℕ}
      → state.total_share ≢ 0
      → p.staked_amount ≡ none
      → poll_quorum d config state p t ≡ ok ws
      → (b : ℕ) × (contract_balance d config state ≡ ok b)
        × (d.uint_sub b state.total_deposit ≡ ok ws.1)
        × (d.from_ratio t ws.1 ≡ ok ws.0)
  unfolding poll_quorum
  poll_quorum_balance config state p t held open_poll h = ground arith

  poll_quorum_cases :
      (config : Config) (state : State) (p : Poll) (t : ℕ) {ws : ℕ × ℕ}
      → poll_quorum d config state p t ≡ ok ws
      → Weighs d config state p ws.1
        × (ws.0 ≡ (if state.total_share == 0 then 0 else t * decimal_one / ws.1))
  unfolding poll_quorum
  poll_quorum_cases config state p t {ws} h = elim (ℕ_discrete state.total_share 0) [
    | yes none_held ↦ (nobody none_held (ground arith), ground arith)
    | no held ↦ elim (Option-cases p.staked_amount) [
      | inr (w, taken) ↦
          let same : ws.1 ≡ w = ground arith in
          (snapshot held (rw same taken), rw same (ground (arith, laws.decimal_cases t w)))
      | inl open_poll ↦
          let (b, read, left, ratio) = poll_quorum_balance config state p t held open_poll h in
          (
            balance b held open_poll read (
                ground (
                  arith,
                  laws.sub_fits b state.total_deposit,
                  laws.sub_fails b state.total_deposit,
                )),
            ground (arith, laws.decimal_cases t ws.1),
          )
    ]
  ]

  decide_poll_value :
      (config : Config) (state : State) (p : Poll) (w quorum : ℕ) {o : Outcome}
      → quorum ≡ (if state.total_share == 0 then 0 else tallied p * decimal_one / w)
      → decide_poll d config p (tallied p) quorum ≡ ok o
      → (o.quorum_reached ≡ reaches_quorum config state p w)
        × (o.status ≡ (
            if reaches_quorum config state p w && exceeds_threshold config p
            then passed
            else rejected))
  unfolding decide_poll
  decide_poll_value config state p w quorum q h =
      ground (arith, laws.decimal_cases p.yes_votes (tallied p))

  refund_sent :
      (config : Config) (p : Poll) {ms : List CosmosMsg}
      → p.deposit_amount ≢ 0
      → refund_messages d config p true ≡ ok ms
      → (token : HumanAddr) × (d.human_address config.anchor_token ≡ ok token)
        × (creator : HumanAddr) × (d.human_address p.creator ≡ ok creator)
        × (ms
            ≡ record { contract_addr = token; msg = transfer creator p.deposit_amount; coins = [] }
              ∷ [])
  unfolding refund_messages
  refund_sent config p some_deposit h = ground arith

  refund_messages-IsRefund :
      (config : Config) (p : Poll) (reached : Bool) {ms : List CosmosMsg}
      → refund_messages d config p reached ≡ ok ms
      → IsRefund d config p reached ms
  unfolding refund_messages
  refund_messages-IsRefund config p false h = kept refl (ground arith)
  refund_messages-IsRefund config p true h = elim (ℕ_discrete p.deposit_amount 0) [
    | yes zero_deposit ↦ nothing_deposited refl zero_deposit (ground arith)
    | no deposit ↦
        let (token, t, creator, c, e) = refund_sent config p deposit h in
        refunded token creator refl t c e
  ]

  -- When `end_poll` succeeds, the poll was in progress and its voting period over; the poll then
  -- holds the stake that it was measured by, and has passed exactly if some vote was cast, the
  -- turnout was at least the quorum (equal is enough), and the yes votes exceed the threshold;
  -- otherwise it is rejected. The deposit is refunded to its creator exactly if some vote was cast
  -- and the quorum was reached.
  pub end_poll_decides :
      (s : Storage) (env : Env) (id : ℕ) {s' : Storage} {r : HandleResponse}
      → end_poll d s env id ≡ ok (s', r)
      → Decided d s env id s' r
  unfolding close_poll
  end_poll_decides s env id h =
      let (
        p, found, config, conf, state, stored, was, over, weights, q, o, decided, ms, refund, total,
        _, sent, e,
      ) =
        end_poll_effect d s env id h in
      let (weighs, turnout) = poll_quorum_cases config state p (tallied p) q in
      let (reached, status) =
        decide_poll_value config state p weights.1 weights.0 turnout decided in
      let refund' = refund_messages-IsRefund config p o.quorum_reached refund in
      (
        p,
        found,
        config,
        conf,
        state,
        stored,
        was,
        over,
        weights.1,
        weighs,
        subst₂ (IsRefund d config p) reached (sym sent) refund',
        rw e (stored_poll id p weights.1 o.status _ s.polls status),
      )
