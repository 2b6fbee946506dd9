-- ===== src/Gov/Outcomes.antt =====
-- The theorems on the governance contract at the states of the run in Gov/Scenario.
use anchor_token_contracts.Base.{◌+◌, ◌≡◌, ◌≢◌, refl, arith, none, some, ok, List, All, length, min}
use anchor_token_contracts.Base.Sums.{sum_by}
use anchor_token_contracts.Cosmwasm.{HandleResponse, example_codec, env_at, asc}
use anchor_token_contracts.Gov.Types.{State, Config, Storage, Poll, in_progress, vote_no, vote_yes}
use anchor_token_contracts.Gov.Polls.Vote.{cast_vote}
use anchor_token_contracts.Gov.Queries.{read_polls, query_poll}
use anchor_token_contracts.Gov.Contract.{update}
use anchor_token_contracts.Gov.Invariant.Index.{here, next}
use anchor_token_contracts.Gov.Invariant.Votes.{yes_of, no_of}
use anchor_token_contracts.Gov.Invariant.Tallied.{tally_backed}
use anchor_token_contracts.Gov.Polls.End.{end_poll}
use anchor_token_contracts.Gov.Laws.Ending.{end_poll_returns, snapshot}
use anchor_token_contracts.Gov.Invariant.Once.{cast_vote_once}
use anchor_token_contracts.Gov.Laws.Proposal.{query_poll-create_poll}
use anchor_token_contracts.Gov.Laws.Listing.{IsShown, polls_by_status}
use anchor_token_contracts.Paging.Entries.{count_past}
use anchor_token_contracts.Gov.Example.{
  deps, holding, laws, config, first_config, response_of, updating, halve,
}
use anchor_token_contracts.Gov.Scenario.{
  fresh, fresh_runs, staked, calls, proposed, voting, voted, proposed_run, run, voted_poll,
  voted_found, creating_runs, voted_state, voted_config, voted_total, casting_runs, updated,
  updated_runs,
}

tally_backed_example :
    (50 ≡ sum_by yes_of (voted.poll_voters 1)) × (0 ≡ sum_by no_of (voted.poll_voters 1))
tally_backed_example =
    tally_backed deps laws (env_at "carol" 1 0) first_config fresh voted 1 voted_poll fresh_runs run
      voted_found refl

polls_by_status_example :
    (polls : List Poll) × (read_polls voted (some in_progress) (some 0) none (some asc) ≡ ok polls)
    × All (IsShown voted in_progress (some asc) (some 0)) polls
    × (length polls ≡ min 10 (count_past (some asc) (some 0) (voted.poll_indexer in_progress)))
polls_by_status_example =
    polls_by_status deps (env_at "carol" 1 0) first_config fresh voted in_progress (some 0) none
      (some asc) fresh_runs run

abbrev IsReadBack : Type 0
IsReadBack =
    (state : State) × (staked.state ≡ some state)
    × (config : Config) × (staked.config ≡ some config)
    × (query_poll deps proposed (state.poll_count + 1)
        ≡ ok (record {
          id = state.poll_count + 1;
          creator = "bob";
          status = in_progress;
          end_height = 4 + config.voting_period;
          title = "title";
          description = "description";
          link = none;
          deposit_amount = 10;
          execute_data = some calls;
          yes_votes = 0;
          no_votes = 0;
          staked_amount = none;
          total_balance_at_end_poll = none;
        }))

query_poll-create_poll_example : IsReadBack
query_poll-create_poll_example =
    query_poll-create_poll deps (example_codec 110) staked (env_at "anchor" 4 0) "bob" 10 "title"
      "description" none (some calls) creating_runs

-- Anyone ends the poll at height 104.
end_poll_returns_example :
    (t' : Storage) × (r : HandleResponse) × (end_poll deps voted (env_at "bob" 104 0) 1
      ≡ ok (t', r))
end_poll_returns_example =
    end_poll_returns deps laws (env_at "carol" 1 0) first_config fresh voted (env_at "bob" 104 0) 1
      voted_poll config voted_state "anchor" "bob" fresh_runs run voted_found refl (omega arith)
      voted_config voted_total (omega arith) (snapshot 100 refl (omega arith)) refl refl

-- Alice has voted, the owner has changed the configuration, and Alice does not vote again.
cast_vote_once_example :
    cast_vote deps updated (env_at "alice" 95 0) 1 vote_no 5 ≢ ok (voted, response_of voting)
cast_vote_once_example =
    cast_vote_once deps laws (env_at "carol" 1 0) (env_at "alice" 80 0) (env_at "alice" 95 0)
      first_config fresh proposed updated 1 vote_yes vote_no 50 5 (holding 110) (holding 110)
      fresh_runs proposed_run casting_runs
      (next here (holding 110) (env_at "carol" 90 0) (update halve) (response_of (updating voted))
        updated_runs)
      refl
