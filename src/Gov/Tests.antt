-- ===== src/Gov/Tests.antt =====
-- The theorems on the operations of the governance contract at concrete inputs.
use anchor_token_contracts.Base.{
  ℕ, ◌+◌, ◌*◌, ◌≤◌, ◌<◌, ◌≡◌, refl, none, some, Result, ok, arith, [], ◌∷◌, ◌⊎◌,
}
use anchor_token_contracts.Base.Buckets.{may_load, save, remove}
use anchor_token_contracts.Cosmwasm.{HandleResponse, env_at}
use anchor_token_contracts.Gov.Types.{
  Storage, Poll, passed, vote_yes, load_token_balance, contract_balance,
}
use anchor_token_contracts.Gov.Staking.{
  share_to_withdraw, amount_to_withdraw, withdraw_voting_tokens, compute_locked_balance,
  release_votes, largest_vote, pay_out, send_tokens,
}
use anchor_token_contracts.Gov.Polls.End.{
  end_poll, poll_quorum, decide_poll, refund_messages, close_poll,
}
use anchor_token_contracts.Gov.Polls.Close.{
  execute_poll, execution_messages, message_of, sort_by_order, insert_by_order,
}
use anchor_token_contracts.Gov.Polls.Vote.{cast_vote, count_vote, take_snapshot}
use anchor_token_contracts.Gov.Laws.Tally.{Decided, end_poll_decides}
use anchor_token_contracts.Gov.Laws.Voting.{info_of, Counted, cast_vote_counts}
use anchor_token_contracts.Gov.Laws.Withdrawal.{
  share_to_withdraw_bounds, withdraw_respects_locks, LeavesLocked,
}
use anchor_token_contracts.Gov.Laws.Execution.{Executed, execute_poll_sends}
use anchor_token_contracts.Gov.Example.{
  storage_of, response_of, deps, laws, poll, start, voted, ended, voted_runs, ended_runs,
}

-- The poll passes: half of the stake voted, all of it yes.
ended_status : (p : Poll) → may_load 1 (storage_of ended voted).polls ≡ some p → p.status ≡ passed
unfolding cast_vote may_load save contract_balance load_token_balance count_vote take_snapshot
    end_poll poll_quorum decide_poll refund_messages close_poll
ended_status p h = ground arith

cast_vote_counts_example : Counted deps start (env_at "alice" 80 0) 1 vote_yes 50 voted
cast_vote_counts_example =
    cast_vote_counts deps laws start (env_at "alice" 80 0) 1 vote_yes 50 voted_runs

end_poll_decides_example :
    Decided deps voted (env_at "bob" 100 0) 1 (storage_of ended voted) (response_of ended)
end_poll_decides_example = end_poll_decides deps laws voted (env_at "bob" 100 0) 1 ended_runs

-- Execution at height 120, when the timelock is over.
abbrev executing : Result (Storage × HandleResponse)
executing = execute_poll deps (storage_of ended voted) (env_at "bob" 120 0) 1

executing_runs : executing ≡ ok (storage_of executing voted, response_of executing)
unfolding cast_vote may_load save contract_balance load_token_balance count_vote take_snapshot
    end_poll poll_quorum decide_poll refund_messages close_poll execute_poll execution_messages
    message_of sort_by_order insert_by_order remove
executing_runs = refl

execute_poll_sends_example :
    Executed deps
      (storage_of ended voted)
      (env_at "bob" 120 0)
      1
      (storage_of executing voted)
      (response_of executing)
execute_poll_sends_example =
    execute_poll_sends deps (storage_of ended voted) (env_at "bob" 120 0) 1 executing_runs

abbrev withdrawing : Result (Storage × HandleResponse)
withdrawing = withdraw_voting_tokens deps voted (env_at "alice" 90 0) none

withdrawing_runs : withdrawing ≡ ok (storage_of withdrawing voted, response_of withdrawing)
unfolding cast_vote may_load save contract_balance load_token_balance count_vote take_snapshot
    withdraw_voting_tokens compute_locked_balance release_votes largest_vote share_to_withdraw
    amount_to_withdraw pay_out send_tokens
withdrawing_runs = refl

-- Alice's vote of 50 stays covered when she withdraws what is not locked.
withdraw_respects_locks_example :
    LeavesLocked deps voted 3 1 (info_of vote_yes 50) (storage_of withdrawing voted)
unfolding cast_vote may_load save contract_balance load_token_balance count_vote take_snapshot
withdraw_respects_locks_example =
    withdraw_respects_locks deps laws voted (env_at "alice" 90 0) none 3 0 1
      (record { share = 60; locked_balance = (1, info_of vote_yes 50) ∷ [] }) (info_of vote_yes 50)
      (record poll { yes_votes = 50; staked_amount = some 100 }) withdrawing_runs refl refl refl
      refl refl

-- Withdrawing 19 tokens at ten tokens a share costs one share.
share_to_withdraw_bounds_example :
    (1 ≤ 1) × (19 * 10 < (1 + 1) * 100) × ((1 * 100 ≤ 19 * 10) ⊎ (◌≡◌ {A = ℕ} 1 1))
unfolding share_to_withdraw
share_to_withdraw_bounds_example = share_to_withdraw_bounds deps laws 19 10 0 10 100 refl
