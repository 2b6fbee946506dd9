-- ===== src/Gov/Polls/Close.antt =====
-- `execute_poll`, `expire_poll` and `snapshot_poll`.
use anchor_token_contracts.Base.{
  ℕ, String, not, Option, none, some, Result, ok, err, generic_err, ◌>>=◌, ◌>>◌, fail_if, ltb, leb,
  if◌then◌else◌, List, [], ◌∷◌, add_u64, sub_uint, collect, is_some,
}
use anchor_token_contracts.Base.Buckets.{load}
use anchor_token_contracts.Cosmwasm.{Deps, Env, HandleResponse, CosmosMsg, LogValue, raw, text, num}
use anchor_token_contracts.Gov.Types.{
  Storage, Poll, PollStatus, ExecuteData, in_progress, passed, executed, expired, is_status,
  read_config, read_state, store_poll, index_poll, unindex_poll, contract_balance,
}

-- `sort` by the order numbers, which keeps equal entries as they stood.
unfoldable pub insert_by_order : ExecuteData → List ExecuteData → List ExecuteData
insert_by_order m [] = m ∷ []
insert_by_order m (n ∷ ns) =
    let rest = insert_by_order m ns in if leb m.order n.order then m ∷ n ∷ ns else n ∷ rest

unfoldable pub sort_by_order : List ExecuteData → List ExecuteData
sort_by_order [] = []
sort_by_order (m ∷ ms) = insert_by_order m (sort_by_order ms)

-- The writes that `execute_poll` and `expire_poll` share.
abbrev pub move_passed : ℕ → Poll → PollStatus → Storage → Storage
move_passed poll_id poll status s =
    store_poll poll_id (record poll { status = status })
      (index_poll status poll_id (unindex_poll passed poll_id s))

abbrev pub poll_log : String → ℕ → List (String × LogValue)
poll_log action poll_id = ("action", text action) ∷ ("poll_id", num poll_id) ∷ []

module _ (d : Deps) where
  unfoldable pub message_of : ExecuteData → Result CosmosMsg
  message_of m = do
    contract ← d.human_address m.contract
    ok (record { contract_addr = contract; msg = raw m.payload; coins = [] })

  unfoldable pub execution_messages : Option (List ExecuteData) → Result (List CosmosMsg)
  execution_messages none = err (generic_err "The poll does not have execute_data")
  execution_messages (some msgs) = collect message_of (sort_by_order msgs)

  unfoldable pub execute_poll : Storage → Env → ℕ → Result (Storage × HandleResponse)
  execute_poll s env poll_id = do
    config ← read_config s
    poll ← load poll_id s.polls
    fail_if (not (is_status poll.status passed)) (generic_err "Poll is not in passed status")
    unlock_height ← add_u64 poll.end_height config.timelock_period
    fail_if (ltb env.block_height unlock_height) (generic_err "Timelock period has not expired")
    messages ← execution_messages poll.execute_data
    ok (
      move_passed poll_id poll executed s,
      record { messages = messages; log = poll_log "execute_poll" poll_id },
    )

  unfoldable pub expire_poll : Storage → Env → ℕ → Result (Storage × HandleResponse)
  expire_poll s env poll_id = do
    config ← read_config s
    poll ← load poll_id s.polls
    fail_if (not (is_status poll.status passed)) (generic_err "Poll is not in passed status")
    fail_if (not (is_some poll.execute_data))
        (generic_err "Cannot make a text proposal to expired state")
    expire_height ← add_u64 poll.end_height config.expiration_period
    fail_if (ltb env.block_height expire_height) (generic_err "Expire height has not been reached")
    ok (
      move_passed poll_id poll expired s,
      record { messages = []; log = poll_log "expire_poll" poll_id },
    )

  unfoldable pub snapshot_poll : Storage → Env → ℕ → Result (Storage × HandleResponse)
  snapshot_poll s env poll_id = do
    config ← read_config s
    poll ← load poll_id s.polls
    fail_if (not (is_status poll.status in_progress)) (generic_err "Poll is not in progress")
    time_to_end ← sub_uint poll.end_height env.block_height
    fail_if (ltb config.snapshot_period time_to_end) (generic_err "Cannot snapshot at this height")
    fail_if (is_some poll.staked_amount) (generic_err "Snapshot has already occurred")
    state ← read_state s
    balance ← contract_balance d config state
    staked_amount ← d.uint_sub balance state.total_deposit
    ok (
      store_poll poll_id (record poll { staked_amount = some staked_amount }) s,
      record {
        messages = [];
        log =
            ("action", text "snapshot_poll")
            ∷ ("poll_id", num poll_id)
            ∷ ("staked_amount", num staked_amount)
            ∷ [];
      },
    )
