-- ===== src/Vesting/Contract.antt =====
-- contracts/vesting/src/contract.rs: `init` and the messages of `handle`.
use anchor_token_contracts.Base.{
  ℕ, Option, some, List, [], ◌∷◌, Result, ok, unauthorized, ◌>>=◌, ◌>>◌, ◌==◌, ◌!=◌, if◌then◌else◌,
  fail_if, unwrap_or, update_with,
}
use anchor_token_contracts.Cosmwasm.{
  HumanAddr, Deps, Env, HandleResponse, CosmosMsg, transfer, text, num,
}
use anchor_token_contracts.Vesting.Types.{
  Config, VestingAccount, Storage, read_config, read_vesting_info, store_vesting_info,
}
use anchor_token_contracts.Vesting.Claims.{compute_claim_amount, assert_vesting_schedules}

pub data HandleMsg : Type 0 where
  update : Option HumanAddr → Option HumanAddr → Option ℕ → HandleMsg
  register : List VestingAccount → HandleMsg
  claims : HandleMsg

module _ (d : Deps) where
  unfoldable pub init : HumanAddr → HumanAddr → ℕ → Result Storage
  init owner anchor_token genesis_time = do
    owner_raw ← d.canonical_address owner
    token_raw ← d.canonical_address anchor_token
    ok (record {
      config =
          some
            (record { owner = owner_raw; anchor_token = token_raw; genesis_time = genesis_time });
      vesting_infos = [];
    })

  unfoldable pub assert_owner_privilege : Storage → Env → Result (Unit {0})
  assert_owner_privilege s env = do
    config ← read_config s
    sender ← d.canonical_address env.sender
    fail_if (config.owner != sender) unauthorized

  unfoldable pub update_config :
      Storage → Option HumanAddr → Option HumanAddr → Option ℕ → Result (Storage × HandleResponse)
  update_config s owner anchor_token genesis_time = do
    config ← read_config s
    owner' ← update_with d.canonical_address owner config.owner
    token' ← update_with d.canonical_address anchor_token config.anchor_token
    ok (
      record s {
        config = some (record {
          owner = owner';
          anchor_token = token';
          genesis_time = unwrap_or genesis_time config.genesis_time;
        });
      },
      record { messages = []; log = ("action", text "update_config") ∷ [] },
    )

  -- The loop of `register_vesting_accounts`: a later entry for an address replaces an earlier one.
  unfoldable pub register_each : ℕ → List VestingAccount → Storage → Result Storage
  register_each genesis_time [] s = ok s
  register_each genesis_time (a ∷ accounts) s = do
    assert_vesting_schedules a.schedules
    address ← d.canonical_address a.address
    register_each genesis_time accounts (
        store_vesting_info address
          (record { schedules = a.schedules; last_claim_time = genesis_time }) s)

  unfoldable pub register_vesting_accounts :
      Storage → List VestingAccount → Result (Storage × HandleResponse)
  register_vesting_accounts s accounts = do
    config ← read_config s
    s' ← register_each config.genesis_time accounts s
    ok (s', record { messages = []; log = ("action", text "register_vesting_accounts") ∷ [] })

  unfoldable pub claim_messages : Config → HumanAddr → ℕ → Result (List CosmosMsg)
  claim_messages config address claim_amount = if claim_amount == 0 then ok [] else (do
    token ← d.human_address config.anchor_token
    ok (record { contract_addr = token; msg = transfer address claim_amount; coins = [] } ∷ []))

  unfoldable pub claim : Storage → Env → Result (Storage × HandleResponse)
  unfolding claim_messages
  claim s env = do
    address ← d.canonical_address env.sender
    config ← read_config s
    info ← read_vesting_info s address
    claim_amount ← compute_claim_amount d env.block_time info
    messages ← claim_messages config env.sender claim_amount
    ok (
      store_vesting_info address (record info { last_claim_time = env.block_time }) s,
      record {
        messages = messages;
        log =
            ("action", text "claim")
            ∷ ("address", text env.sender)
            ∷ ("claim_amount", num claim_amount)
            ∷ ("last_claim_time", num env.block_time)
            ∷ [];
      },
    )

  unfoldable pub handle : Storage → Env → HandleMsg → Result (Storage × HandleResponse)
  unfolding assert_owner_privilege
  handle s env claims = claim s env
  handle s env (update owner anchor_token genesis_time) = do
    assert_owner_privilege s env
    update_config s owner anchor_token genesis_time
  handle s env (register accounts) = do
    assert_owner_privilege s env
    register_vesting_accounts s accounts
