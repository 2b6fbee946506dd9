-- ===== src/Gov/Polls/End.antt =====
-- `end_poll`: the tally, the refund, and the new status.
use anchor_token_contracts.Base.{
  ℕ, String, Bool, true, false, not, none, some, Result, ok, generic_err, ◌>>=◌, ◌>>◌, fail_if, ltb,
  ◌==◌, ◌||◌, if◌then◌else◌, List, [], ◌∷◌, add_u128,
}
use anchor_token_contracts.Base.Buckets.{load}
use anchor_token_contracts.Cosmwasm.{Deps, Env, HandleResponse, CosmosMsg, transfer, text, num}
use anchor_token_contracts.Gov.Types.{
  Config, State, Storage, Poll, PollStatus, in_progress, passed, rejected, is_status, read_config,
  read_state, store_state, store_poll, index_poll, unindex_poll, contract_balance,
}

pub record Outcome : Type 0 where
  pub status : PollStatus
  pub rejected_reason : String
  pub quorum_reached : Bool

abbrev pub bool_text : Bool → String
bool_text true = "true"
bool_text false = "false"

module _ (d : Deps) where
  -- The share of the stake that voted, and the stake that it is measured by: none, the
  -- snapshot, or the balance now.
  unfoldable pub poll_quorum : Config → State → Poll → ℕ → Result (ℕ × ℕ)
  poll_quorum config state poll tallied_weight =
      if state.total_share == 0 then ok (0, 0) else elim poll.staked_amount [
        | some staked_amount ↦ do
          quorum ← d.from_ratio tallied_weight staked_amount
          ok (quorum, staked_amount)
        | none ↦ do
          balance ← contract_balance d config state
          staked_weight ← d.uint_sub balance state.total_deposit
          quorum ← d.from_ratio tallied_weight staked_weight
          ok (quorum, staked_weight)
      ]

  unfoldable pub decide_poll : Config → Poll → ℕ → ℕ → Result Outcome
  decide_poll config poll tallied_weight quorum =
      if (tallied_weight == 0) || ltb quorum config.quorum
      then ok (record {
        status = rejected;
        rejected_reason = "Quorum not reached";
        quorum_reached = false;
      })
      else (do
        ratio ← d.from_ratio poll.yes_votes tallied_weight
        ok (
            if ltb config.threshold ratio
            then record { status = passed; rejected_reason = ""; quorum_reached = true }
            else record {
              status = rejected;
              rejected_reason = "Threshold not reached";
              quorum_reached = true;
            }))

  -- The deposit goes back to the creator only when the quorum is reached.
  unfoldable pub refund_messages : Config → Poll → Bool → Result (List CosmosMsg)
  refund_messages config poll quorum_reached =
      if quorum_reached
      then (if poll.deposit_amount == 0 then ok [] else (do
        token ← d.human_address config.anchor_token
        recipient ← d.human_address poll.creator
        ok (
            record {
              contract_addr = token;
              msg = transfer recipient poll.deposit_amount;
              coins = [];
            }
            ∷ [])))
      else ok []

  -- The writes of `end_poll`.
  unfoldable pub close_poll : Storage → ℕ → Poll → State → ℕ → PollStatus → ℕ → Storage
  close_poll s poll_id poll state total_deposit status staked_weight =
      store_poll poll_id
        (record poll { status = status; total_balance_at_end_poll = some staked_weight })
        (index_poll status poll.id (
          unindex_poll in_progress poll.id
            (store_state (record state { total_deposit = total_deposit }) s)))

  unfoldable pub end_poll : Storage → Env → ℕ → Result (Storage × HandleResponse)
  end_poll s env poll_id = do
    poll ← load poll_id s.polls
    fail_if (not (is_status poll.status in_progress)) (generic_err "Poll is not in progress")
    fail_if (ltb env.block_height poll.end_height) (generic_err "Voting period has not expired")
    tallied_weight ← add_u128 poll.yes_votes poll.no_votes
    config ← read_config s
    state ← read_state s
    weights ← poll_quorum config state poll tallied_weight
    outcome ← decide_poll config poll tallied_weight weights.0
    messages ← refund_messages config poll outcome.quorum_reached
    total_deposit ← d.uint_sub state.total_deposit poll.deposit_amount
    ok (
      close_poll s poll_id poll state total_deposit outcome.status weights.1,
      record {
        messages = messages;
        log =
            ("action", text "end_poll")
            ∷ ("poll_id", num poll_id)
            ∷ ("rejected_reason", text outcome.rejected_reason)
            ∷ ("passed", text (bool_text (is_status outcome.status passed)))
            ∷ [];
      },
    )
