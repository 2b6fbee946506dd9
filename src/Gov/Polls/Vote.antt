-- ===== src/Gov/Polls/Vote.antt =====
-- `cast_vote`.
use anchor_token_contracts.Base.{
  ℕ, String, not, some, Result, ok, generic_err, ◌>>=◌, ◌>>◌, fail_if, ltb, ◌==◌, ◌&&◌, ◌||◌,
  if◌then◌else◌, [], ◌∷◌, ◌++◌, sub_uint, unwrap_or, is_some,
}
use anchor_token_contracts.Base.Buckets.{load, may_load}
use anchor_token_contracts.Cosmwasm.{Deps, Env, HandleResponse, text, num}
use anchor_token_contracts.Gov.Types.{
  Config, Storage, Poll, VoteOption, VoterInfo, in_progress, is_status, is_yes, no_stake,
  read_config, read_state, store_poll, store_bank, store_voter, contract_balance,
}

abbrev vote_text : VoteOption → String
vote_text v = if is_yes v then "yes" else "no"

module _ (d : Deps) where
  -- The tally with one more vote.
  unfoldable pub count_vote : Poll → VoteOption → ℕ → Result Poll
  count_vote poll vote amount =
      if is_yes vote
      then (do
        yes_votes ← d.uint_add poll.yes_votes amount
        ok (record poll { yes_votes = yes_votes }))
      else (do no_votes ← d.uint_add poll.no_votes amount; ok (record poll { no_votes = no_votes }))

  -- The first vote inside the snapshot period fixes the stake that the quorum is measured by.
  unfoldable pub take_snapshot : Config → Poll → ℕ → ℕ → Poll
  take_snapshot config poll time_to_end total_balance =
      if ltb time_to_end config.snapshot_period && not (is_some poll.staked_amount)
      then record poll { staked_amount = some total_balance }
      else poll

  unfoldable pub cast_vote : Storage → Env → ℕ → VoteOption → ℕ → Result (Storage × HandleResponse)
  cast_vote s env poll_id vote amount = do
    key ← d.canonical_address env.sender
    config ← read_config s
    state ← read_state s
    fail_if (poll_id == 0 || ltb state.poll_count poll_id) (generic_err "Poll does not exist")
    poll ← load poll_id s.polls
    fail_if (not (is_status poll.status in_progress) || ltb poll.end_height env.block_height)
        (generic_err "Poll is not in progress")
    fail_if (is_some (may_load key (s.poll_voters poll_id))) (generic_err "User has already voted.")
    let manager = unwrap_or (may_load key s.bank) no_stake
    balance ← contract_balance d config state
    total_balance ← d.uint_sub balance state.total_deposit
    stake ← d.multiply_ratio manager.share total_balance state.total_share
    fail_if (ltb stake amount) (generic_err "User does not have enough staked tokens.")
    counted ← count_vote poll vote amount
    time_to_end ← sub_uint poll.end_height env.block_height
    let info : VoterInfo = record { vote = vote; balance = amount }
    let voted = record manager { locked_balance = manager.locked_balance ++ (poll_id, info) ∷ [] }
    ok (
      store_poll poll_id (take_snapshot config counted time_to_end total_balance)
          (store_voter poll_id key info (store_bank key voted s)),
      record {
        messages = [];
        log =
            ("action", text "cast_vote")
            ∷ ("poll_id", num poll_id)
            ∷ ("amount", num amount)
            ∷ ("voter", text env.sender)
            ∷ ("vote_option", text (vote_text vote))
            ∷ [];
      },
    )
