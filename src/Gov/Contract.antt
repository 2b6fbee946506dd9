-- ===== src/Gov/Contract.antt =====
-- contracts/gov/src/contract.rs: `receive_cw20` and the dispatch of `handle`.
use anchor_token_contracts.Base.{
  ℕ, String, Option, none, some, Result, err, generic_err, unauthorized, ◌>>=◌, ◌>>◌, fail_if, ◌!=◌,
  List,
}
use anchor_token_contracts.Cosmwasm.{HumanAddr, Deps, Env, HandleResponse, Cw20ReceiveMsg}
use anchor_token_contracts.Gov.Types.{Storage, VoteOption, ExecuteMsg, read_config}
use anchor_token_contracts.Gov.Settings.{ConfigUpdate, register_contracts, update_config}
use anchor_token_contracts.Gov.Staking.{stake_voting_tokens, withdraw_voting_tokens}
use anchor_token_contracts.Gov.Polls.Create.{create_poll}
use anchor_token_contracts.Gov.Polls.End.{end_poll}
use anchor_token_contracts.Gov.Polls.Close.{execute_poll, expire_poll, snapshot_poll}
use anchor_token_contracts.Gov.Polls.Vote.{cast_vote}

pub data Cw20HookMsg : Type 0 where
  stake_tokens : Cw20HookMsg
  new_poll : String → String → Option String → Option (List ExecuteMsg) → Cw20HookMsg

pub data HandleMsg : Type 0 where
  receive : Cw20ReceiveMsg (Option Cw20HookMsg) → HandleMsg
  register : HumanAddr → HandleMsg
  update : ConfigUpdate → HandleMsg
  vote : ℕ → VoteOption → ℕ → HandleMsg
  withdraw : Option ℕ → HandleMsg
  end execute expire snapshot : ℕ → HandleMsg

module _ (d : Deps) where
  -- The hook's own call, once it has been parsed.
  unfoldable pub run_hook :
      Storage → Env → HumanAddr → ℕ → Option Cw20HookMsg → Result (Storage × HandleResponse)
  run_hook s env sender amount none = err (generic_err "data should be given")
  run_hook s env sender amount (some stake_tokens) = stake_voting_tokens d s sender amount
  run_hook s env sender amount (some (new_poll title description link msgs)) =
      create_poll d s env sender amount title description link msgs

  unfoldable pub receive_cw20 :
      Storage → Env → Cw20ReceiveMsg (Option Cw20HookMsg) → Result (Storage × HandleResponse)
  unfolding run_hook
  receive_cw20 s env m = do
    config ← read_config s
    token ← d.canonical_address env.sender
    fail_if (config.anchor_token != token) unauthorized
    hook ← m.hook
    run_hook s env m.cw20_sender m.cw20_amount hook

  unfoldable pub handle : Storage → Env → HandleMsg → Result (Storage × HandleResponse)
  handle s env (receive m) = receive_cw20 s env m
  handle s env (register anchor_token) = register_contracts d s anchor_token
  handle s env (update m) = update_config d s env m
  handle s env (vote poll_id v amount) = cast_vote d s env poll_id v amount
  handle s env (withdraw amount) = withdraw_voting_tokens d s env amount
  handle s env (end poll_id) = end_poll d s env poll_id
  handle s env (execute poll_id) = execute_poll d s env poll_id
  handle s env (expire poll_id) = expire_poll d s env poll_id
  handle s env (snapshot poll_id) = snapshot_poll d s env poll_id
