-- ===== src/Gov/Invariant/Executed.antt =====
-- A poll is executed at most once.
use anchor_token_contracts.Base.{ℕ, ◌≡◌, ◌≢◌, refl, some, ok, arith}
use anchor_token_contracts.Base.Buckets.{may_load, may_load-save}
use anchor_token_contracts.Cosmwasm.{Deps, Env, HandleResponse, Answers, answering}
use anchor_token_contracts.Gov.Types.{Storage, Poll, VoteOption, executed}
use anchor_token_contracts.Gov.Settings.{InitMsg, init}
use anchor_token_contracts.Gov.Polls.End.{end_poll}
use anchor_token_contracts.Gov.Polls.Close.{execute_poll, expire_poll, snapshot_poll}
use anchor_token_contracts.Gov.Polls.Vote.{cast_vote}
use anchor_token_contracts.Gov.Contract.{handle, execute}
use anchor_token_contracts.Gov.Effects.Polls.{
  execute_poll_effect, expire_poll_effect, end_poll_effect, snapshot_poll_effect, cast_vote_effect,
}
use anchor_token_contracts.Gov.Invariant.Index.{
  Reach, Reach-IsIndexed, init-IsIndexed, handle-IsIndexed, Reach-final,
}

handled :
    (d : Deps) (s : Storage) (env : Env) (id : ℕ) {s' : Storage} {r : HandleResponse}
    → execute_poll d s env id ≡ ok (s', r)
    → handle d s env (execute id) ≡ ok (s', r)
unfolding handle
handled d s env id h = h

-- No operation on the poll succeeds with this result.
abbrev pub IsClosed : Deps → Storage → Env → ℕ → VoteOption → ℕ → Storage → HandleResponse → Type 0
IsClosed d s env id v amount s' r =
    (execute_poll d s env id ≢ ok (s', r))
    × (expire_poll d s env id ≢ ok (s', r))
    × (end_poll d s env id ≢ ok (s', r))
    × (snapshot_poll d s env id ≢ ok (s', r))
    × (cast_vote d s env id v amount ≢ ok (s', r))

executed-IsClosed :
    (d : Deps) (s : Storage) (env : Env) (id : ℕ) (v : VoteOption) (amount : ℕ) (p : Poll)
    (s' : Storage) (r : HandleResponse)
    → may_load id s.polls ≡ some p
    → p.status ≡ executed
    → IsClosed d s env id v amount s' r
executed-IsClosed d s env id v amount p s' r found is = (
  λ h. let (q, there, was, _) = execute_poll_effect d s env id h in ground (arith, found, there),
  λ h. let (q, there, was, _) = expire_poll_effect d s env id h in ground (arith, found, there),
  λ h.
      let (q, there, _, _, _, _, was, _, _, _, _, _, _, _, _, _, _, _) =
        end_poll_effect d s env id h in
      ground (arith, found, there),
  λ h.
      let (q, there, _, _, _, _, _, _, _, _, was, _, _) = snapshot_poll_effect d s env id h in
      ground (arith, found, there),
  λ h.
      let (_, _, q, there, _, _, _, _, _, _, _, _, _, _, _, _, was, _, _, _, _) =
        cast_vote_effect d s env id v amount h in
      ground (arith, found, there),
)

-- After a poll is executed in a state that `init` leads to, and whatever messages succeed after
-- it, the poll is not executed again, nor expired, ended, snapshotted or voted on, by anyone and
-- at any height. The token balance may be another at each message.
pub executed_once :
    (d : Deps) (init_env env later : Env) (m : InitMsg) (fresh s s' t : Storage)
    (answers answers' : Answers) (id : ℕ) (v : VoteOption) (amount : ℕ) (u : Storage)
    (r' : HandleResponse) {r : HandleResponse}
    → init d init_env m ≡ ok fresh
    → Reach d fresh s
    → execute_poll (answering d answers) s env id ≡ ok (s', r)
    → Reach d s' t
    → IsClosed (answering d answers') t later id v amount u r'
executed_once d init_env env later m fresh s s' t answers answers' id v amount u r' start run h
      after =
    let now = answering d answers in
    let (p, found, was, e) = execute_poll_effect now s env id h in
    let indexed =
      handle-IsIndexed now s env (execute id)
        (Reach-IsIndexed (init-IsIndexed d init_env m start) run) (handled now s env id h) in
    let there : may_load id s'.polls ≡ some (record p { status = executed }) =
      rw e (ground (arith, may_load-save id id (record p { status = executed }) s.polls)) in
    let (q, stored, same) =
      Reach-final d s' t id (record p { status = executed }) indexed there refl after in
    executed-IsClosed (answering d answers') t later id v amount q u r' stored same
