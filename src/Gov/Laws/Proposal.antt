-- ===== src/Gov/Laws/Proposal.antt =====
-- A poll that has been created, read by `query_poll`.
use anchor_token_contracts.Base.{
  ℕ, ◌+◌, ◌≡◌, refl, String, Option, none, some, ok, arith, List, [], ◌∷◌, collect,
}
use anchor_token_contracts.Base.Buckets.{may_load, save, may_load-save}
use anchor_token_contracts.Cosmwasm.{
  Deps, IsAddressCodec, Env, HandleResponse, HumanAddr, CanonicalAddr,
}
use anchor_token_contracts.Gov.Types.{Storage, State, Config, ExecuteMsg, ExecuteData, in_progress}
use anchor_token_contracts.Gov.Polls.Create.{create_poll, all_execute_data, execute_data_of}
use anchor_token_contracts.Gov.Queries.{query_poll, poll_response, execute_msgs_of, execute_msg_of}
use anchor_token_contracts.Gov.Effects.Polls.{create_poll_effect, fresh_poll}

module _ (d : Deps) (codec : IsAddressCodec d) where
  data_effect :
      (m : ExecuteMsg) {c : ExecuteData}
      → execute_data_of d m ≡ ok c
      → (contract : CanonicalAddr) × (d.canonical_address m.contract ≡ ok contract)
        × (c ≡ record { order = m.order; contract = contract; payload = m.payload })
  unfolding execute_data_of
  data_effect m h = ground arith

  message_back :
      (m : ExecuteMsg) {c : ExecuteData} → execute_data_of d m ≡ ok c → execute_msg_of d c ≡ ok m
  unfolding execute_data_of execute_msg_of
  message_back m h =
      let (contract, e, whole) = data_effect m h in
      rw (whole, codec.human_canonical m.contract contract e) refl

  collect_cons :
      (m : ExecuteMsg) (l : List ExecuteMsg) {c : List ExecuteData}
      → collect (execute_data_of d) (m ∷ l) ≡ ok c
      → (first : ExecuteData) × (execute_data_of d m ≡ ok first)
        × (rest : List ExecuteData) × (collect (execute_data_of d) l ≡ ok rest)
        × (c ≡ first ∷ rest)
  collect_cons m l h = ground arith

  messages_back :
      (l : List ExecuteMsg) (c : List ExecuteData)
      → collect (execute_data_of d) l ≡ ok c
      → collect (execute_msg_of d) c ≡ ok l
  messages_back [] c h = ground arith
  messages_back (m ∷ l) c h =
      let (first, e, rest, e', whole) = collect_cons m l h in
      rw whole (rw (message_back m e, messages_back l rest e') refl)

  all_back :
      (msgs : Option (List ExecuteMsg)) (c : Option (List ExecuteData))
      → all_execute_data d msgs ≡ ok c
      → execute_msgs_of d c ≡ ok msgs
  unfolding all_execute_data execute_msgs_of
  all_back none c h = ground arith
  all_back (some l) none h = ground arith
  all_back (some l) (some c) h = rw (messages_back l c (ground arith)) refl

  -- The poll that a successful creation stores under the next id is read back by `query_poll` as
  -- it was proposed: the texts, the deposit, the calls in their order and the proposer, in
  -- progress, without votes, ending after the voting period. Addresses are assumed to be
  -- translated back to what they were.
  pub query_poll-create_poll :
      (s : Storage) (env : Env) (proposer : HumanAddr) (deposit : ℕ) (title description : String)
      (link : Option String) (msgs : Option (List ExecuteMsg)) {s' : Storage} {r : HandleResponse}
      → create_poll d s env proposer deposit title description link msgs ≡ ok (s', r)
      → (state : State) × (s.state ≡ some state)
        × (config : Config) × (s.config ≡ some config)
        × (query_poll d s' (state.poll_count + 1)
            ≡ ok (record {
              id = state.poll_count + 1;
              creator = proposer;
              status = in_progress;
              end_height = env.block_height + config.voting_period;
              title = title;
              description = description;
              link = link;
              deposit_amount = deposit;
              execute_data = msgs;
              yes_votes = 0;
              no_votes = 0;
              staked_amount = none;
              total_balance_at_end_poll = none;
            }))
  unfolding query_poll poll_response
  query_poll-create_poll s env proposer deposit title description link msgs h =
      let (config, conf, state, stored, total, _, calls, sent, creator, named, _, e) =
        create_poll_effect d s env proposer deposit title description link msgs h in
      let id = state.poll_count + 1 in
      let p =
        fresh_poll id creator (env.block_height + config.voting_period) title description link calls
          deposit in
      let found = may_load-save id id p s.polls in
      let here : may_load id (save id p s.polls) ≡ some p = ground (arith, found) in
      (
        state,
        stored,
        config,
        conf,
        rw (e, here, codec.human_canonical proposer creator named, all_back msgs calls sent) refl,
      )
