-- ===== src/Staking/Contract.antt =====
-- contracts/staking/src/contract.rs: `init`, `bond`, `unbond`, `withdraw` and their dispatch.
use anchor_token_contracts.Base.{
  ℕ, Option, none, some, List, [], ◌∷◌, Result, ok, err, generic_err, unauthorized, ◌>>=◌, ◌>>◌,
  ltb, ◌==◌, ◌!=◌, ◌&&◌, if◌then◌else◌, fail_if,
}
use anchor_token_contracts.Cosmwasm.{
  CanonicalAddr, HumanAddr, Deps, Env, HandleResponse, Cw20ReceiveMsg, transfer, text, num,
}
use anchor_token_contracts.Staking.Types.{
  Slot, StakerInfo, Storage, read_config, read_state, store_state, store_staker_info,
  remove_staker_info, read_staker_info,
}
use anchor_token_contracts.Staking.Rewards.{
  compute_reward, compute_staker_reward, increase_bond_amount, decrease_bond_amount,
}

pub data Cw20HookMsg : Type 0 where
  bonds : Cw20HookMsg

pub data HandleMsg : Type 0 where
  receive : Cw20ReceiveMsg (Option Cw20HookMsg) → HandleMsg
  unbonds : ℕ → HandleMsg
  withdraws : HandleMsg

module _ (d : Deps) where
  unfoldable pub init : Env → HumanAddr → HumanAddr → List Slot → Result Storage
  init env anchor_token staking_token distribution_schedule = do
    anchor_raw ← d.canonical_address anchor_token
    staking_raw ← d.canonical_address staking_token
    ok (record {
      config = some (record {
        anchor_token = anchor_raw;
        staking_token = staking_raw;
        distribution_schedule = distribution_schedule;
      });
      state = some (record {
        last_distributed = env.block_height;
        total_bond_amount = 0;
        global_reward_index = 0;
      });
      stakers = [];
    })

  unfoldable pub bond : Storage → Env → HumanAddr → ℕ → Result (Storage × HandleResponse)
  bond s env sender amount = do
    key ← d.canonical_address sender
    config ← read_config s
    state ← read_state s
    let info = read_staker_info s key
    state' ← compute_reward d config state env.block_height
    info' ← compute_staker_reward d state' info
    bonded ← increase_bond_amount d state' info' amount
    ok (
      store_state bonded.0 (store_staker_info key bonded.1 s),
      record {
        messages = [];
        log = ("action", text "bond") ∷ ("owner", text sender) ∷ ("amount", num amount) ∷ [];
      },
    )

  -- A staker with neither bond nor reward is forgotten.
  abbrev pub keep_staker : CanonicalAddr → StakerInfo → Storage → Storage
  keep_staker key info s =
      if (info.pending_reward == 0) && (info.bond_amount == 0)
      then remove_staker_info key s
      else store_staker_info key info s

  unfoldable pub unbond : Storage → Env → ℕ → Result (Storage × HandleResponse)
  unbond s env amount = do
    config ← read_config s
    key ← d.canonical_address env.sender
    state ← read_state s
    let info = read_staker_info s key
    fail_if (ltb info.bond_amount amount) (generic_err "Cannot unbond more than bond amount")
    state' ← compute_reward d config state env.block_height
    info' ← compute_staker_reward d state' info
    unbonded ← decrease_bond_amount d state' info' amount
    token ← d.human_address config.staking_token
    ok (
      store_state unbonded.0 (keep_staker key unbonded.1 s),
      record {
        messages =
            record { contract_addr = token; msg = transfer env.sender amount; coins = [] } ∷ [];
        log = ("action", text "unbond") ∷ ("owner", text env.sender) ∷ ("amount", num amount) ∷ [];
      },
    )

  -- After a withdrawal only the bond is left to keep.
  abbrev pub keep_bonded : CanonicalAddr → StakerInfo → Storage → Storage
  keep_bonded key info s =
      if info.bond_amount == 0 then remove_staker_info key s else store_staker_info key info s

  unfoldable pub withdraw : Storage → Env → Result (Storage × HandleResponse)
  withdraw s env = do
    key ← d.canonical_address env.sender
    config ← read_config s
    state ← read_state s
    let info = read_staker_info s key
    state' ← compute_reward d config state env.block_height
    info' ← compute_staker_reward d state' info
    token ← d.human_address config.anchor_token
    ok (
      store_state state' (keep_bonded key (record info' { pending_reward = 0 }) s),
      record {
        messages =
            record {
              contract_addr = token;
              msg = transfer env.sender info'.pending_reward;
              coins = [];
            }
            ∷ [];
        log =
            ("action", text "withdraw")
            ∷ ("owner", text env.sender)
            ∷ ("amount", num info'.pending_reward)
            ∷ [];
      },
    )

  -- The hook as it was sent: without data, with data that does not parse, or `Bond {}`.
  unfoldable pub run_hook :
      Storage
      → Env
      → HumanAddr
      → ℕ
      → Result (Option Cw20HookMsg)
      → Result (Storage × HandleResponse)
  run_hook s env sender amount (ok none) = err (generic_err "data should be given")
  run_hook s env sender amount (err e) = do config ← read_config s; err e
  run_hook s env sender amount (ok (some bonds)) = do
    config ← read_config s
    token ← d.canonical_address env.sender
    fail_if (config.staking_token != token) unauthorized
    bond s env sender amount

  unfoldable pub receive_cw20 :
      Storage → Env → Cw20ReceiveMsg (Option Cw20HookMsg) → Result (Storage × HandleResponse)
  unfolding run_hook
  receive_cw20 s env m = run_hook s env m.cw20_sender m.cw20_amount m.hook

  unfoldable pub handle : Storage → Env → HandleMsg → Result (Storage × HandleResponse)
  handle s env (receive m) = receive_cw20 s env m
  handle s env (unbonds amount) = unbond s env amount
  handle s env withdraws = withdraw s env
