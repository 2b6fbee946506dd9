-- ===== src/Gov/Invariant/Handle.antt =====
-- Every message changes the polls in one of the four ways.
use anchor_token_contracts.Base.{ℕ, ◌≡◌, Option, none, some, ok, arith}
use anchor_token_contracts.Base.Buckets.{may_load}
use anchor_token_contracts.Cosmwasm.{Deps, Env, HandleResponse, HumanAddr, Cw20ReceiveMsg}
use anchor_token_contracts.Gov.Types.{Storage, Config, Poll}
use anchor_token_contracts.Gov.Settings.{ConfigUpdate, register_contracts, update_config}
use anchor_token_contracts.Gov.Staking.{stake_voting_tokens, withdraw_voting_tokens}
use anchor_token_contracts.Gov.Contract.{
  Cw20HookMsg, HandleMsg, stake_tokens, new_poll, receive, register, update, vote, withdraw, end,
  execute, expire, snapshot, run_hook, receive_cw20, handle,
}
use anchor_token_contracts.Gov.Effects.Shares.{
  release_votes-OnlyVoters, stake_effect, withdraw_effect, pay_out_effect,
}
use anchor_token_contracts.Gov.Invariant.Change.{Change, keeps}
use anchor_token_contracts.Gov.Invariant.Operations.{
  execute_poll-Change, expire_poll-Change, snapshot_poll-Change, end_poll-Change,
  create_poll-Change, cast_vote-Change,
}

module _ (d : Deps) where
  pub receive_cw20_effect :
      (s : Storage) (env : Env) (m : Cw20ReceiveMsg (Option Cw20HookMsg)) {s' : Storage}
      {r : HandleResponse}
      → receive_cw20 d s env m ≡ ok (s', r)
      → (config : Config) × (s.config ≡ some config)
        × (d.canonical_address env.sender ≡ ok config.anchor_token)
        × (hook : Option Cw20HookMsg) × (m.hook ≡ ok hook)
        × (run_hook d s env m.cw20_sender m.cw20_amount hook ≡ ok (s', r))
  unfolding receive_cw20
  receive_cw20_effect s env m h = ground arith

  register_contracts-Change :
      (s : Storage) (anchor_token : HumanAddr) {s' : Storage} {r : HandleResponse}
      → register_contracts d s anchor_token ≡ ok (s', r)
      → Change s s'
  unfolding register_contracts
  register_contracts-Change s anchor_token h = keeps (ground arith) (ground arith) (ground arith)

  update_config-Change :
      (s : Storage) (env : Env) (m : ConfigUpdate) {s' : Storage} {r : HandleResponse}
      → update_config d s env m ≡ ok (s', r)
      → Change s s'
  unfolding update_config
  update_config-Change s env m h = keeps (ground arith) (ground arith) (ground arith)

  stake-Change :
      (s : Storage) (sender : HumanAddr) (amount : ℕ) {s' : Storage} {r : HandleResponse}
      → stake_voting_tokens d s sender amount ≡ ok (s', r)
      → Change s s'
  stake-Change s sender amount h =
      let effect = stake_effect d s sender amount h in
      keeps (ground arith) (ground arith) (ground arith)

  withdraw-Change :
      (s : Storage) (env : Env) (amount : Option ℕ) {s' : Storage} {r : HandleResponse}
      → withdraw_voting_tokens d s env amount ≡ ok (s', r)
      → Change s s'
  withdraw-Change s env amount {s'} h =
      let (
        key, _, manager, _, config, _, state, stored, _, _, total, _, votes, released, share, _,
        out, _, _, paid,
      ) =
        withdraw_effect d s env amount h in
      let only = release_votes-OnlyVoters key manager.locked_balance s votes released in
      let (_, _, _, e) = pay_out_effect d votes.1 config state _ key _ share out paid in
      rw e (keeps only.same_polls only.same_indexer (rw stored))

  run_hook-Change :
      (s : Storage) (env : Env) (sender : HumanAddr) (amount : ℕ) (hook : Option Cw20HookMsg)
      {s' : Storage} {r : HandleResponse}
      → run_hook d s env sender amount hook ≡ ok (s', r)
      → Change s s'
  unfolding run_hook
  run_hook-Change s env sender amount none h = cc
  run_hook-Change s env sender amount (some stake_tokens) h = stake-Change s sender amount h
  run_hook-Change s env sender amount (some (new_poll title description link msgs)) h =
      create_poll-Change d s env sender amount title description link msgs h

  pub handle-Change :
      (s : Storage) (env : Env) (m : HandleMsg) {s' : Storage} {r : HandleResponse}
      → ((id : ℕ) (p : Poll) → may_load id s.polls ≡ some p → p.id ≡ id)
      → handle d s env m ≡ ok (s', r)
      → Change s s'
  unfolding handle
  handle-Change s env (receive m) own h =
      let (_, _, _, hook, _, ran) = receive_cw20_effect s env m h in
      run_hook-Change s env m.cw20_sender m.cw20_amount hook ran
  handle-Change s env (register anchor_token) own h = register_contracts-Change s anchor_token h
  handle-Change s env (update m) own h = update_config-Change s env m h
  handle-Change s env (vote id v amount) own h = cast_vote-Change d s env id v amount h
  handle-Change s env (withdraw amount) own h = withdraw-Change s env amount h
  handle-Change s env (end id) own h = end_poll-Change d s env id (own id) h
  handle-Change s env (execute id) own h = execute_poll-Change d s env id h
  handle-Change s env (expire id) own h = expire_poll-Change d s env id h
  handle-Change s env (snapshot id) own h = snapshot_poll-Change d s env id h
