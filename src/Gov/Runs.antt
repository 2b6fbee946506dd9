-- ===== src/Gov/Runs.antt =====
-- The theorems on the invariants of the governance contract at concrete states: after the run of
-- Gov/Scenario the poll is ended and executed.
use anchor_token_contracts.Base.{◌≡◌, refl, some, Result, ok, arith, ◌⊎◌}
use anchor_token_contracts.Base.Buckets.{may_load, save, remove}
use anchor_token_contracts.Base.Sums.{sum_by}
use anchor_token_contracts.Cosmwasm.{HandleResponse, example_deps, env_at}
use anchor_token_contracts.Gov.Types.{
  Storage, Poll, in_progress, executed, vote_no, load_token_balance, contract_balance,
}
use anchor_token_contracts.Gov.Settings.{
  init, validate_quorum, validate_threshold, register_contracts, update_config, validate_title,
  validate_description, validate_link,
}
use anchor_token_contracts.Gov.Staking.{stake_voting_tokens, share_of_deposit}
use anchor_token_contracts.Gov.Polls.Create.{create_poll, all_execute_data, execute_data_of}
use anchor_token_contracts.Gov.Polls.End.{
  end_poll, poll_quorum, decide_poll, refund_messages, close_poll,
}
use anchor_token_contracts.Gov.Polls.Close.{
  execute_poll, execution_messages, sort_by_order, insert_by_order, message_of,
}
use anchor_token_contracts.Gov.Polls.Vote.{cast_vote, count_vote, take_snapshot}
use anchor_token_contracts.Gov.Contract.{handle, receive_cw20, run_hook, update, end, execute}
use anchor_token_contracts.Gov.Invariant.Change.{SamePoll, Advances}
use anchor_token_contracts.Gov.Invariant.Index.{
  Reach, here, next, index_entry, index_of_status, handle_poll_life, final_forever,
}
use anchor_token_contracts.Gov.Invariant.Shares.{IsBalanced, handle-IsBalanced}
use anchor_token_contracts.Gov.Invariant.Deposits.{deposit_of, deposit_total, total_deposit_backed}
use anchor_token_contracts.Gov.Invariant.Executed.{IsClosed, executed_once}
use anchor_token_contracts.Gov.Invariant.Ownership.{owner_alone_configures}
use anchor_token_contracts.Gov.Example.{
  storage_of, response_of, deps, holding, laws, config, start, halve, updating, first_config,
}
use anchor_token_contracts.Gov.Scenario.{
  fresh, fresh_runs, voted, run, voted_poll, voted_found, voted_config,
}

abbrev ending : Result (Storage × HandleResponse)
ending = handle deps voted (env_at "bob" 104 0) (end 1)

abbrev finished : Storage
finished = storage_of ending voted

ending_runs : ending ≡ ok (finished, response_of ending)
unfolding init validate_quorum validate_threshold handle register_contracts receive_cw20 run_hook
    stake_voting_tokens share_of_deposit contract_balance load_token_balance may_load create_poll
    validate_title validate_description validate_link all_execute_data execute_data_of cast_vote
    save count_vote take_snapshot end_poll poll_quorum decide_poll refund_messages close_poll remove
ending_runs = refl

-- Bob's deposit of 10 has been sent back.
abbrev executing : Result (Storage × HandleResponse)
executing = handle (example_deps 100) finished (env_at "bob" 130 0) (execute 1)

abbrev done : Storage
done = storage_of executing finished

executing_runs : executing ≡ ok (done, response_of executing)
unfolding ending_runs execute_poll execution_messages sort_by_order insert_by_order message_of
executing_runs = refl

done_run : Reach deps fresh done
done_run =
    next (next run (holding 110) (env_at "bob" 104 0) (end 1) (response_of ending) ending_runs)
      (holding 100) (env_at "bob" 130 0) (execute 1) (response_of executing) executing_runs

index_of_status_example :
    may_load 1 (done.poll_indexer executed) ≡ index_entry executed (may_load 1 done.polls)
index_of_status_example =
    index_of_status deps (env_at "carol" 1 0) first_config fresh done executed 1 fresh_runs done_run

handle_poll_life_example :
    (q : Poll) × (may_load 1 finished.polls ≡ some q)
    × SamePoll voted_poll q
    × ((q.status ≡ in_progress) ⊎ Advances in_progress q.status)
handle_poll_life_example =
    handle_poll_life deps (env_at "carol" 1 0) first_config fresh voted finished (holding 110)
      (env_at "bob" 104 0) (end 1) 1 voted_poll fresh_runs run ending_runs voted_found

-- Nobody can execute the poll again, nor vote on it.
executed_once_example :
    IsClosed (example_deps 100) done (env_at "alice" 140 0) 1 vote_no 5 done (response_of executing)
unfolding handle
executed_once_example =
    executed_once deps (env_at "carol" 1 0) (env_at "bob" 130 0) (env_at "alice" 140 0) first_config
      fresh finished done done (holding 100) (holding 100) 1 vote_no 5 done (response_of executing)
      fresh_runs
      (next run (holding 110) (env_at "bob" 104 0) (end 1) (response_of ending) ending_runs)
      executing_runs here

abbrev executed_poll : Poll
executed_poll = record voted_poll { status = executed; total_balance_at_end_poll = some 100 }

executed_found : may_load 1 done.polls ≡ some executed_poll
unfolding executing_runs
executed_found = refl

abbrev changing : Result (Storage × HandleResponse)
changing = handle (example_deps 100) done (env_at "carol" 140 0) (update halve)

abbrev later : Storage
later = storage_of changing done

changing_runs : changing ≡ ok (later, response_of changing)
unfolding executing_runs update_config
changing_runs = refl

final_forever_example : (q : Poll) × (may_load 1 later.polls ≡ some q) × (q.status ≡ executed)
final_forever_example =
    final_forever deps (env_at "carol" 1 0) first_config fresh done later 1 executed_poll fresh_runs
      done_run executed_found refl
      (next here (holding 100) (env_at "carol" 140 0) (update halve) (response_of changing)
        changing_runs)

handle-IsBalanced_example : IsBalanced (storage_of (updating start) start)
unfolding handle update_config
handle-IsBalanced_example =
    handle-IsBalanced deps laws start (env_at "carol" 90 0) (update halve)
      (record { ascending = omega arith; total = refl }) refl

total_deposit_backed_example : deposit_total voted.state ≡ sum_by deposit_of voted.polls
total_deposit_backed_example =
    total_deposit_backed deps laws (env_at "carol" 1 0) first_config fresh voted fresh_runs run

-- Bob is not the owner and can only end the poll.
owner_alone_configures_example : finished.config ≡ voted.config
owner_alone_configures_example =
    owner_alone_configures deps voted (env_at "bob" 104 0) (end 1) config voted_config (omega arith)
      (λ e. cc e) ending_runs
