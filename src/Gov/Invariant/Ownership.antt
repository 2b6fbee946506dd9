-- ===== src/Gov/Invariant/Ownership.antt =====
-- Who changes the configuration of the governance contract.
use anchor_token_contracts.Base.{ℕ, ◌≡◌, ◌≢◌, refl, Option, none, some, ok, arith}
use anchor_token_contracts.Cosmwasm.{Deps, Env, HandleResponse, HumanAddr, no_address}
use anchor_token_contracts.Gov.Types.{Storage, Config}
use anchor_token_contracts.Gov.Settings.{ConfigUpdate, register_contracts, update_config}
use anchor_token_contracts.Gov.Staking.{withdraw_voting_tokens}
use anchor_token_contracts.Gov.Polls.End.{close_poll}
use anchor_token_contracts.Gov.Contract.{
  Cw20HookMsg, HandleMsg, stake_tokens, new_poll, receive, register, update, vote, withdraw, end,
  execute, expire, snapshot, run_hook, handle,
}
use anchor_token_contracts.Gov.Effects.Polls.{
  execute_poll_effect, expire_poll_effect, snapshot_poll_effect, end_poll_effect, cast_vote_effect,
  create_poll_effect,
}
use anchor_token_contracts.Gov.Effects.Shares.{
  release_votes-OnlyVoters, stake_effect, withdraw_effect, pay_out_effect,
}
use anchor_token_contracts.Gov.Invariant.Handle.{receive_cw20_effect}

module _ (d : Deps) where
  register_config :
      (s : Storage) (anchor_token : HumanAddr) (c : Config) {s' : Storage} {r : HandleResponse}
      → register_contracts d s anchor_token ≡ ok (s', r)
      → s.config ≡ some c
      → c.anchor_token ≡ no_address
  unfolding register_contracts
  register_config s anchor_token c h stored = ground arith

  update_config_owner :
      (s : Storage) (env : Env) (m : ConfigUpdate) (c : Config) {s' : Storage} {r : HandleResponse}
      → update_config d s env m ≡ ok (s', r)
      → s.config ≡ some c
      → d.canonical_address env.sender ≡ ok c.owner
  unfolding update_config
  update_config_owner s env m c h stored = ground arith

  run_hook_config :
      (s : Storage) (env : Env) (sender : HumanAddr) (amount : ℕ) (hook : Option Cw20HookMsg)
      {s' : Storage} {r : HandleResponse}
      → run_hook d s env sender amount hook ≡ ok (s', r)
      → s'.config ≡ s.config
  unfolding run_hook
  run_hook_config s env sender amount none h = cc
  run_hook_config s env sender amount (some stake_tokens) h =
      let (_, _, _, _, _, _, _, _, _, _, _, _, _, _, _, _, _, _, _, e) =
        stake_effect d s sender amount h in
      rw e refl
  run_hook_config s env sender amount (some (new_poll title description link msgs)) h =
      let (_, _, _, _, _, _, _, _, _, _, _, e) =
        create_poll_effect d s env sender amount title description link msgs h in
      rw e refl

  withdraw_config :
      (s : Storage) (env : Env) (amount : Option ℕ) {s' : Storage} {r : HandleResponse}
      → withdraw_voting_tokens d s env amount ≡ ok (s', r)
      → s'.config ≡ s.config
  withdraw_config s env amount h =
      let (
        key, _, manager, _, config, _, state, _, _, _, _, _, votes, released, share, _, out, _, _,
        paid,
      ) =
        withdraw_effect d s env amount h in
      let only = release_votes-OnlyVoters key manager.locked_balance s votes released in
      let (_, _, _, e) = pay_out_effect d votes.1 config state _ key _ share out paid in
      rw e only.same_config

  -- Once the token is registered, a successful message of anyone but the owner leaves the
  -- configuration as it was.
  pub owner_alone_configures :
      (s : Storage) (env : Env) (m : HandleMsg) (c : Config) {s' : Storage} {r : HandleResponse}
      → s.config ≡ some c
      → c.anchor_token ≢ no_address
      → d.canonical_address env.sender ≢ ok c.owner
      → handle d s env m ≡ ok (s', r)
      → s'.config ≡ s.config
  unfolding handle close_poll
  owner_alone_configures s env (receive m) c stored known other h =
      let (_, _, _, hook, _, ran) = receive_cw20_effect d s env m h in
      run_hook_config s env m.cw20_sender m.cw20_amount hook ran
  owner_alone_configures s env (register anchor_token) c stored known other h =
      absurd (known (register_config s anchor_token c h stored))
  owner_alone_configures s env (update m) c stored known other h =
      absurd (other (update_config_owner s env m c h stored))
  owner_alone_configures s env (vote id o amount) c stored known other h =
      let (_, _, _, _, _, _, _, _, _, _, _, _, _, _, _, _, _, _, _, _, e) =
        cast_vote_effect d s env id o amount h in
      rw e refl
  owner_alone_configures s env (withdraw amount) c stored known other h =
      withdraw_config s env amount h
  owner_alone_configures s env (end id) c stored known other h =
      let (_, _, _, _, _, _, _, _, _, _, _, _, _, _, _, _, _, e) = end_poll_effect d s env id h in
      rw e refl
  owner_alone_configures s env (execute id) c stored known other h =
      let (_, _, _, e) = execute_poll_effect d s env id h in rw e refl
  owner_alone_configures s env (expire id) c stored known other h =
      let (_, _, _, e) = expire_poll_effect d s env id h in rw e refl
  owner_alone_configures s env (snapshot id) c stored known other h =
      let (_, _, _, _, _, _, _, _, _, _, _, _, e) = snapshot_poll_effect d s env id h in rw e refl
