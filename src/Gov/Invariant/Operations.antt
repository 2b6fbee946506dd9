-- ===== src/Gov/Invariant/Operations.antt =====
-- Each operation's change to the polls.
use anchor_token_contracts.Base.{
  ℕ, ◌≡◌, refl, Option, none, some, ok, arith, String, List, ◌⊎◌, inl, inr, ◌∙◌, ◌-◌,
}
use anchor_token_contracts.Base.Buckets.{may_load}
use anchor_token_contracts.Cosmwasm.{Deps, Env, HandleResponse, HumanAddr}
use anchor_token_contracts.Gov.Types.{
  Storage, State, Config, Poll, PollStatus, VoteOption, ExecuteMsg, in_progress, passed, rejected,
  executed, expired, store_poll,
}
use anchor_token_contracts.Gov.Polls.Create.{create_poll}
use anchor_token_contracts.Gov.Polls.End.{Outcome, end_poll, close_poll, decide_poll}
use anchor_token_contracts.Gov.Polls.Close.{execute_poll, expire_poll, snapshot_poll, move_passed}
use anchor_token_contracts.Gov.Polls.Vote.{cast_vote, count_vote, take_snapshot}
use anchor_token_contracts.Gov.Effects.Polls.{
  execute_poll_effect, expire_poll_effect, snapshot_poll_effect, end_poll_effect, cast_vote_effect,
  create_poll_effect,
}
use anchor_token_contracts.Gov.Invariant.Change.{
  Advances, passes, fails, executes, expires, SamePoll, Change, creates, revises, moves,
}

pub move_passed-Change :
    (s : Storage) (id : ℕ) (p : Poll) (st : PollStatus)
    → may_load id s.polls ≡ some p
    → p.status ≡ passed
    → Advances passed st
    → Change s (move_passed id p st s)
move_passed-Change s id p st found was edge =
    moves id p (record p { status = st }) found (rw was edge) (ground arith) refl (rw was refl) refl

revise-Change :
    (s : Storage) (id : ℕ) (p q : Poll)
    → may_load id s.polls ≡ some p
    → p.status ≡ in_progress
    → q.status ≡ in_progress
    → SamePoll p q
    → Change s (store_poll id q s)
revise-Change s id p q found was is same = revises id p q found was is same refl refl refl

set_snapshot-SamePoll :
    (p : Poll) (amount : ℕ)
    → p.staked_amount ≡ none
    → SamePoll p (record p { staked_amount = some amount })
set_snapshot-SamePoll p amount fresh = ground arith

end_edge : (st : PollStatus) → (st ≡ passed) ⊎ (st ≡ rejected) → Advances in_progress st
end_edge st (inl e) = rw e passes
end_edge st (inr e) = rw e fails

module _ (d : Deps) where
  close_poll-Change :
      (s : Storage) (id : ℕ) (p : Poll) (state : State) (total : ℕ) (st : PollStatus) (weight : ℕ)
      → may_load id s.polls ≡ some p
      → s.state ≡ some state
      → p.status ≡ in_progress
      → p.id ≡ id
      → (st ≡ passed) ⊎ (st ≡ rejected)
      → Change s (close_poll d s id p state total st weight)
  unfolding close_poll
  close_poll-Change s id p state total st weight found stored was own edge =
      moves id p (record p { status = st; total_balance_at_end_poll = some weight }) found
        (rw was (end_edge st edge)) (ground arith) refl (rw (was, own) refl) (rw stored)

  pub decide_poll_cases :
      (config : Config) (p : Poll) (tallied quorum : ℕ) {o : Outcome}
      → decide_poll d config p tallied quorum ≡ ok o
      → (o.status ≡ passed) ⊎ (o.status ≡ rejected)
  unfolding decide_poll
  decide_poll_cases config p tallied quorum h = ground arith

  count_vote-SamePoll :
      (p : Poll) (vote : VoteOption) (amount : ℕ) {q : Poll}
      → count_vote d p vote amount ≡ ok q
      → SamePoll p q × (q.status ≡ p.status) × (q.staked_amount ≡ p.staked_amount)
  unfolding count_vote
  count_vote-SamePoll p vote amount h = ground arith

  take_snapshot-SamePoll :
      (config : Config) (p : Poll) (time balance : ℕ)
      → SamePoll p (take_snapshot d config p time balance)
        × ((take_snapshot d config p time balance).status ≡ p.status)
  unfolding take_snapshot
  take_snapshot-SamePoll config p time balance = ground arith

  pub voted-SamePoll :
      (config : Config) (p : Poll) (vote : VoteOption) (amount : ℕ) (counted : Poll)
      (time balance : ℕ)
      → count_vote d p vote amount ≡ ok counted
      → SamePoll p (take_snapshot d config counted time balance)
        × ((take_snapshot d config counted time balance).status ≡ p.status)
  voted-SamePoll config p vote amount counted time balance h = ground (
    arith,
    count_vote-SamePoll p vote amount h,
    take_snapshot-SamePoll config counted time balance,
  )

  pub execute_poll-Change :
      (s : Storage) (env : Env) (id : ℕ) {s' : Storage} {r : HandleResponse}
      → execute_poll d s env id ≡ ok (s', r)
      → Change s s'
  execute_poll-Change s env id h =
      let (p, found, was, e) = execute_poll_effect d s env id h in
      rw e (move_passed-Change s id p executed found was executes)

  pub expire_poll-Change :
      (s : Storage) (env : Env) (id : ℕ) {s' : Storage} {r : HandleResponse}
      → expire_poll d s env id ≡ ok (s', r)
      → Change s s'
  expire_poll-Change s env id h =
      let (p, found, was, e) = expire_poll_effect d s env id h in
      rw e (move_passed-Change s id p expired found was expires)

  pub snapshot_poll-Change :
      (s : Storage) (env : Env) (id : ℕ) {s' : Storage} {r : HandleResponse}
      → snapshot_poll d s env id ≡ ok (s', r)
      → Change s s'
  snapshot_poll-Change s env id h =
      let (p, found, _, _, _, _, _, _, amount, _, was, fresh, e) =
        snapshot_poll_effect d s env id h in
      rw e (
        revise-Change s id p (record p { staked_amount = some amount }) found was was
          (set_snapshot-SamePoll p amount fresh))

  pub end_poll-Change :
      (s : Storage) (env : Env) (id : ℕ) {s' : Storage} {r : HandleResponse}
      → ((p : Poll) → may_load id s.polls ≡ some p → p.id ≡ id)
      → end_poll d s env id ≡ ok (s', r)
      → Change s s'
  end_poll-Change s env id own h =
      let (
        p, found, config, _, state, stored, was, _, weights, _, o, decided, _, _, total, _, _, e,
      ) =
        end_poll_effect d s env id h in
      rw e (
        close_poll-Change s id p state total o.status weights.1 found stored was (own p found)
          (decide_poll_cases config p _ _ decided))

  pub create_poll-Change :
      (s : Storage) (env : Env) (proposer : HumanAddr) (deposit : ℕ) (title description : String)
      (link : Option String) (msgs : Option (List ExecuteMsg)) {s' : Storage} {r : HandleResponse}
      → create_poll d s env proposer deposit title description link msgs ≡ ok (s', r)
      → Change s s'
  create_poll-Change s env proposer deposit title description link msgs h =
      let (config, _, state, stored, total, _, _, _, _, _, _, e) =
        create_poll_effect d s env proposer deposit title description link msgs h in
      rw e (creates _ (rw stored) refl refl refl refl)

  pub cast_vote-Change :
      (s : Storage) (env : Env) (id : ℕ) (vote : VoteOption) (amount : ℕ) {s' : Storage}
      {r : HandleResponse}
      → cast_vote d s env id vote amount ≡ ok (s', r)
      → Change s s'
  cast_vote-Change s env id vote amount h =
      let (
        key, _, p, found, config, _, state, _, _, _, total, _, _, _, counted, c, was, _, _, _, e,
      ) =
        cast_vote_effect d s env id vote amount h in
      let q = take_snapshot d config counted (p.end_height - env.block_height) total in
      let same =
        voted-SamePoll config p vote amount counted (p.end_height - env.block_height) total c in
      rw e (revises id p q found was (same.1 ∙ was) same.0 refl refl refl)
