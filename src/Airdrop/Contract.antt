-- ===== src/Airdrop/Contract.antt =====
-- contracts/airdrop/src/contract.rs: `init`, the messages of `handle`, and the queries.
use anchor_token_contracts.Base.{
  ℕ, ◌+◌, String, Bool, not, Option, some, List, [], ◌∷◌, Result, ok, generic_err, unauthorized,
  panic, ◌>>=◌, ◌>>◌, ◌!=◌, fail_if, ok_or, update_with, checked, is_some,
}
use anchor_token_contracts.Base.Buckets.{save}
use anchor_token_contracts.Cosmwasm.{HumanAddr, Deps, Env, HandleResponse, transfer, text, num}
use anchor_token_contracts.Airdrop.Types.{
  Crypto, Config, Storage, read_config, read_latest_stage, read_merkle_root, read_claimed,
  store_claimed,
}
use anchor_token_contracts.Airdrop.Merkle.{fold_proof, leaf_hash, same_bytes}

pub data HandleMsg : Type 0 where
  update : Option HumanAddr → HandleMsg
  register : String → HandleMsg
  claims : ℕ → ℕ → List String → HandleMsg

pub record ConfigResponse : Type 0 where
  pub owner : HumanAddr
  pub anchor_token : HumanAddr

module _ (d : Deps) where
  unfoldable pub init : HumanAddr → HumanAddr → Result Storage
  init owner anchor_token = do
    owner_raw ← d.canonical_address owner
    token_raw ← d.canonical_address anchor_token
    ok (record {
      config = some (record { owner = owner_raw; anchor_token = token_raw });
      latest_stage = some 0;
      merkle_roots = [];
      claim_index = λ _. [];
    })

  -- The check that opens both owner messages.
  unfoldable pub assert_owner : Storage → Env → Result Config
  assert_owner s env = do
    config ← read_config s
    sender ← d.canonical_address env.sender
    fail_if (sender != config.owner) unauthorized
    ok config

  unfoldable pub update_config :
      Storage → Env → Option HumanAddr → Result (Storage × HandleResponse)
  unfolding assert_owner
  update_config s env owner = do
    config ← assert_owner s env
    owner' ← update_with d.canonical_address owner config.owner
    ok (
      record s { config = some (record config { owner = owner' }) },
      record { messages = []; log = ("action", text "update_config") ∷ [] },
    )

  unfoldable pub query_config : Storage → Result ConfigResponse
  query_config s = do
    config ← read_config s
    owner ← d.human_address config.owner
    anchor_token ← d.human_address config.anchor_token
    ok (record { owner = owner; anchor_token = anchor_token })

  unfoldable pub query_is_claimed : Storage → ℕ → HumanAddr → Result Bool
  query_is_claimed s stage address = do
    user ← d.canonical_address address
    ok (read_claimed s user stage)

  module _ (c : Crypto) where
    unfoldable pub register_merkle_root : Storage → Env → String → Result (Storage × HandleResponse)
    unfolding assert_owner
    register_merkle_root s env merkle_root = do
      config ← assert_owner s env
      fail_if (not (is_some (c.decode_hex merkle_root)))
          (generic_err "Invalid hex encoded merkle root")
      latest_stage ← read_latest_stage s
      stage ← checked 256 (latest_stage + 1)
      ok (
        record s {
          latest_stage = some stage;
          merkle_roots = save stage merkle_root s.merkle_roots;
        },
        record {
          messages = [];
          log =
              ("action", text "register_merkle_root")
              ∷ ("stage", num stage)
              ∷ ("merkle_root", text merkle_root)
              ∷ [];
        },
      )

    unfoldable pub claim : Storage → Env → ℕ → ℕ → List String → Result (Storage × HandleResponse)
    claim s env stage amount proof = do
      config ← read_config s
      merkle_root ← read_merkle_root s stage
      user ← d.canonical_address env.sender
      fail_if (read_claimed s user stage) (generic_err "Already claimed")
      hash ← fold_proof c (leaf_hash c env.sender amount) proof
      root_buf ← ok_or (c.decode_hex merkle_root) panic
      fail_if (not (same_bytes root_buf hash)) (generic_err "Verification is failed")
      token ← d.human_address config.anchor_token
      ok (
        store_claimed user stage s,
        record {
          messages =
              record { contract_addr = token; msg = transfer env.sender amount; coins = [] } ∷ [];
          log =
              ("action", text "claim")
              ∷ ("stage", num stage)
              ∷ ("address", text env.sender)
              ∷ ("amount", num amount)
              ∷ [];
        },
      )

    unfoldable pub handle : Storage → Env → HandleMsg → Result (Storage × HandleResponse)
    handle s env (update owner) = update_config s env owner
    handle s env (register merkle_root) = register_merkle_root s env merkle_root
    handle s env (claims stage amount proof) = claim s env stage amount proof

-- `query_merkle_root` and `query_latest_stage` are reads of the storage.
unfoldable pub query_merkle_root : Storage → ℕ → Result (ℕ × String)
query_merkle_root s stage = do merkle_root ← read_merkle_root s stage; ok (stage, merkle_root)

unfoldable pub query_latest_stage : Storage → Result ℕ
query_latest_stage s = read_latest_stage s
