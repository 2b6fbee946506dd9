-- ===== src/Gov/Invariant/Deposits.antt =====
-- The total of the deposits against the polls in progress.
use anchor_token_contracts.Base.{
  ℕ, ◌+◌, ◌-◌, ◌≡◌, refl, ap, sym, Option, none, some, ok, arith, if◌then◌else◌, ◌⊎◌, inl, inr,
  String, List,
}
use anchor_token_contracts.Base.Buckets.{may_load, save}
use anchor_token_contracts.Base.Sums.{Ascending, sum_by, weight, save-Ascending, sum_by-save}
use anchor_token_contracts.Cosmwasm.{
  Deps, Env, HandleResponse, HumanAddr, IsCosmwasm, answering, answering-IsCosmwasm,
}
use anchor_token_contracts.Cosmwasm.Laws.{add_value, sub_value}
use anchor_token_contracts.Gov.Types.{
  Storage, State, Poll, PollStatus, VoteOption, ExecuteMsg, in_progress, passed, rejected,
  is_status,
}
use anchor_token_contracts.Gov.Settings.{InitMsg, init, register_contracts, update_config}
use anchor_token_contracts.Gov.Staking.{withdraw_voting_tokens}
use anchor_token_contracts.Gov.Polls.Create.{create_poll}
use anchor_token_contracts.Gov.Polls.End.{end_poll, close_poll}
use anchor_token_contracts.Gov.Polls.Close.{snapshot_poll}
use anchor_token_contracts.Gov.Polls.Vote.{cast_vote, take_snapshot}
use anchor_token_contracts.Gov.Contract.{
  Cw20HookMsg, HandleMsg, stake_tokens, new_poll, receive, register, update, vote, withdraw, end,
  execute, expire, snapshot, run_hook, handle,
}
use anchor_token_contracts.Gov.Effects.Polls.{
  execute_poll_effect, expire_poll_effect, snapshot_poll_effect, end_poll_effect, cast_vote_effect,
  create_poll_effect,
}
use anchor_token_contracts.Gov.Effects.Shares.{
  release_votes-OnlyVoters, stake_effect, withdraw_effect, pay_out_effect,
}
use anchor_token_contracts.Gov.Invariant.Operations.{decide_poll_cases, voted-SamePoll}
use anchor_token_contracts.Gov.Invariant.Handle.{receive_cw20_effect}
use anchor_token_contracts.Gov.Invariant.Index.{
  IsIndexed, Reach, here, next, Reach-IsIndexed, init-IsIndexed, fresh_id,
}

-- A poll that is not in progress holds no deposit any more.
abbrev pub deposit_of : Poll → ℕ
deposit_of p = if is_status p.status in_progress then p.deposit_amount else 0

abbrev pub deposit_total : Option State → ℕ
deposit_total none = 0
deposit_total (some state) = state.total_deposit

record IsFunded (s : Storage) : Type 0 where
  ascending : Ascending s.polls
  total : deposit_total s.state ≡ sum_by deposit_of s.polls

-- The ways in which a message changes the deposits.
data DepositChange (s s' : Storage) : Type 0 where
  untouched :
      s'.polls ≡ s.polls → deposit_total s'.state ≡ deposit_total s.state → DepositChange s s'
  stores :
      (id : ℕ) (p : Poll)
      → s'.polls ≡ save id p s.polls
      → deposit_total s'.state + weight deposit_of (may_load id s.polls)
        ≡ deposit_total s.state + deposit_of p
      → DepositChange s s'

DepositChange-IsFunded : {s s' : Storage} → IsFunded s → DepositChange s s' → IsFunded s'
DepositChange-IsFunded v (untouched polls total) = record {
  ascending = rw polls v.ascending;
  total = rw (polls, total) v.total;
}
DepositChange-IsFunded {s} v (stores id p polls total) = record {
  ascending = rw polls (save-Ascending id p s.polls v.ascending);
  total = rw polls (omega (arith, total, v.total, sum_by-save deposit_of id p s.polls v.ascending));
}

same_weight :
    (p q : Poll)
    → q.deposit_amount ≡ p.deposit_amount
    → q.status ≡ p.status
    → deposit_of q ≡ deposit_of p
same_weight p q deposit status = rw (deposit, status) refl

closed_weight :
    (p : Poll) (st : PollStatus)
    → (st ≡ passed) ⊎ (st ≡ rejected)
    → deposit_of (record p { status = st }) ≡ 0
closed_weight p st (inl e) = rw e refl
closed_weight p st (inr e) = rw e refl

module _ (d : Deps) (laws : IsCosmwasm d) where
  end_poll-DepositChange :
      (s : Storage) (env : Env) (id : ℕ) {s' : Storage} {r : HandleResponse}
      → end_poll d s env id ≡ ok (s', r)
      → DepositChange s s'
  unfolding close_poll
  end_poll-DepositChange s env id h =
      let (
        p, found, config, _, state, stored, was, _, weights, _, o, decided, _, _, total, total_is,
        _, e,
      ) =
        end_poll_effect d s env id h in
      let (enough, total_value) = sub_value laws state.total_deposit p.deposit_amount total_is in
      let closed = closed_weight p o.status (decide_poll_cases d config p _ weights.0 decided) in
      rw e (stores id _ refl (rw (stored, found, was) (omega (arith, enough, total_value, closed))))

  cast_vote-DepositChange :
      (s : Storage) (env : Env) (id : ℕ) (v : VoteOption) (amount : ℕ) {s' : Storage}
      {r : HandleResponse}
      → cast_vote d s env id v amount ≡ ok (s', r)
      → DepositChange s s'
  cast_vote-DepositChange s env id v amount h =
      let (
        _, _, p, found, config, _, _, _, _, _, balance, _, _, _, counted, count, was, _, _, _, e,
      ) =
        cast_vote_effect d s env id v amount h in
      let same =
        voted-SamePoll d config p v amount counted (p.end_height - env.block_height) balance
          count in
      rw e (
        stores id _ refl (
          rw found (
            ap (λ n. deposit_total s.state + n)
              (sym (
                same_weight p
                  (take_snapshot d config counted (p.end_height - env.block_height) balance)
                  same.0.same_deposit same.1)))))

  create_poll-DepositChange :
      (s : Storage) (env : Env) (sender : HumanAddr) (amount : ℕ) (title description : String)
      (link : Option String) (msgs : Option (List ExecuteMsg)) {s' : Storage} {r : HandleResponse}
      → IsIndexed s
      → create_poll d s env sender amount title description link msgs ≡ ok (s', r)
      → DepositChange s s'
  create_poll-DepositChange s env sender amount title description link msgs v h =
      let (_, _, state, stored, total, total_is, _, _, _, _, _, e) =
        create_poll_effect d s env sender amount title description link msgs h in
      let total_value = add_value laws state.total_deposit amount total_is in
      let fresh = fresh_id s (state.poll_count + 1) v (rw stored refl) in
      rw e (stores (state.poll_count + 1) _ refl (rw (fresh, stored) (omega (arith, total_value))))

  snapshot-DepositChange :
      (s : Storage) (env : Env) (id : ℕ) {s' : Storage} {r : HandleResponse}
      → snapshot_poll d s env id ≡ ok (s', r)
      → DepositChange s s'
  snapshot-DepositChange s env id h =
      let (p, found, _, _, state, stored, _, _, _, _, was, _, e) =
        snapshot_poll_effect d s env id h in
      rw e (stores id _ refl (rw (found, was) refl))

  run_hook-DepositChange :
      (s : Storage) (env : Env) (sender : HumanAddr) (amount : ℕ) (hook : Option Cw20HookMsg)
      {s' : Storage} {r : HandleResponse}
      → IsIndexed s
      → run_hook d s env sender amount hook ≡ ok (s', r)
      → DepositChange s s'
  unfolding run_hook
  run_hook-DepositChange s env sender amount none v h = cc
  run_hook-DepositChange s env sender amount (some stake_tokens) v h =
      let (_, _, _, _, state, stored, _, _, _, _, _, _, _, _, _, _, _, _, _, e) =
        stake_effect d s sender amount h in
      rw e (untouched refl (rw stored refl))
  run_hook-DepositChange s env sender amount (some (new_poll title description link msgs)) v h =
      create_poll-DepositChange s env sender amount title description link msgs v h

  withdraw-DepositChange :
      (s : Storage) (env : Env) (amount : Option ℕ) {s' : Storage} {r : HandleResponse}
      → withdraw_voting_tokens d s env amount ≡ ok (s', r)
      → DepositChange s s'
  withdraw-DepositChange s env amount h =
      let (
        key, _, manager, _, config, _, state, stored, _, _, _, _, votes, released, share, _, out, _,
        _, paid,
      ) =
        withdraw_effect d s env amount h in
      let only = release_votes-OnlyVoters key manager.locked_balance s votes released in
      let (_, _, _, e) = pay_out_effect d votes.1 config state _ key _ share out paid in
      rw e (untouched only.same_polls (rw stored refl))

  handle-DepositChange :
      (s : Storage) (env : Env) (m : HandleMsg) {s' : Storage} {r : HandleResponse}
      → IsIndexed s
      → handle d s env m ≡ ok (s', r)
      → DepositChange s s'
  unfolding handle register_contracts update_config
  handle-DepositChange s env (receive m) v h =
      let (_, _, _, hook, _, ran) = receive_cw20_effect d s env m h in
      run_hook-DepositChange s env m.cw20_sender m.cw20_amount hook v ran
  handle-DepositChange s env (register anchor_token) v h = untouched (ground arith) (ground arith)
  handle-DepositChange s env (update m) v h = untouched (ground arith) (ground arith)
  handle-DepositChange s env (vote id o amount) v h = cast_vote-DepositChange s env id o amount h
  handle-DepositChange s env (withdraw amount) v h = withdraw-DepositChange s env amount h
  handle-DepositChange s env (end id) v h = end_poll-DepositChange s env id h
  handle-DepositChange s env (execute id) v h =
      let (p, found, was, e) = execute_poll_effect d s env id h in
      rw e (stores id _ refl (rw (found, was) refl))
  handle-DepositChange s env (expire id) v h =
      let (p, found, was, e) = expire_poll_effect d s env id h in
      rw e (stores id _ refl (rw (found, was) refl))
  handle-DepositChange s env (snapshot id) v h = snapshot-DepositChange s env id h

  init-IsFunded : (env : Env) (m : InitMsg) {s : Storage} → init d env m ≡ ok s → IsFunded s
  unfolding init
  init-IsFunded env m h = record { ascending = ground arith; total = ground arith }

module _ (d : Deps) (laws : IsCosmwasm d) where
  Reach-IsFunded : {s t : Storage} → IsIndexed s → IsFunded s → Reach d s t → IsFunded t
  Reach-IsFunded v f here = f
  Reach-IsFunded v f (next {t} run answers env m _ h) =
      DepositChange-IsFunded (Reach-IsFunded v f run) (
        handle-DepositChange (answering d answers) (answering-IsCosmwasm laws answers) t env m
          (Reach-IsIndexed v run) h)

  -- In every state that any sequence of successful messages reaches from `init`, whatever balance
  -- each of them finds, the deposits that
  -- the contract sets aside from the stake are the deposits of the polls in progress.
  pub total_deposit_backed :
      (env : Env) (m : InitMsg) (s t : Storage)
      → init d env m ≡ ok s
      → Reach d s t
      → deposit_total t.state ≡ sum_by deposit_of t.polls
  total_deposit_backed env m s t h run =
      (Reach-IsFunded (init-IsIndexed d env m h) (init-IsFunded d laws env m h) run).total
