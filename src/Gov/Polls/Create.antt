-- ===== src/Gov/Polls/Create.antt =====
-- `create_poll`.
use anchor_token_contracts.Base.{
  ℕ, String, Option, none, some, Result, ok, generic_err, ◌>>=◌, ◌>>◌, fail_if, ltb, List, [], ◌∷◌,
  add_u64, collect,
}
use anchor_token_contracts.Cosmwasm.{HumanAddr, Deps, Env, HandleResponse, text, num}
use anchor_token_contracts.Gov.Types.{
  Storage, Poll, ExecuteData, ExecuteMsg, in_progress, read_config, read_state, store_state,
  store_poll, index_poll,
}
use anchor_token_contracts.Gov.Settings.{validate_title, validate_description, validate_link}

module _ (d : Deps) where
  unfoldable pub execute_data_of : ExecuteMsg → Result ExecuteData
  execute_data_of m = do
    contract ← d.canonical_address m.contract
    ok (record { order = m.order; contract = contract; payload = m.payload })

  -- `Some(list)` with every address converted, or `None`.
  unfoldable pub all_execute_data : Option (List ExecuteMsg) → Result (Option (List ExecuteData))
  all_execute_data none = ok none
  all_execute_data (some msgs) = do list ← collect execute_data_of msgs; ok (some list)

  unfoldable pub create_poll :
      Storage
      → Env
      → HumanAddr
      → ℕ
      → String
      → String
      → Option String
      → Option (List ExecuteMsg)
      → Result (Storage × HandleResponse)
  create_poll s env proposer deposit_amount title description link execute_msgs = do
    validate_title title
    validate_description description
    validate_link link
    config ← read_config s
    fail_if (ltb deposit_amount config.proposal_deposit)
        (generic_err "Must deposit more than proposal_deposit token")
    state ← read_state s
    poll_id ← add_u64 state.poll_count 1
    total_deposit ← d.uint_add state.total_deposit deposit_amount
    execute_data ← all_execute_data execute_msgs
    creator ← d.canonical_address proposer
    end_height ← add_u64 env.block_height config.voting_period
    let new_poll : Poll = record {
      id = poll_id;
      creator = creator;
      status = in_progress;
      yes_votes = 0;
      no_votes = 0;
      end_height = end_height;
      title = title;
      description = description;
      link = link;
      execute_data = execute_data;
      deposit_amount = deposit_amount;
      total_balance_at_end_poll = none;
      staked_amount = none;
    }
    creator_human ← d.human_address creator
    ok (
      store_state (record state { poll_count = poll_id; total_deposit = total_deposit })
          (index_poll in_progress poll_id (store_poll poll_id new_poll s)),
      record {
        messages = [];
        log =
            ("action", text "create_poll")
            ∷ ("creator", text creator_human)
            ∷ ("poll_id", num poll_id)
            ∷ ("end_height", num end_height)
            ∷ [];
      },
    )
