-- ===== src/Vesting/Queries.antt =====
-- contracts/vesting: the queries of contract.rs and the range of state.rs.
use anchor_token_contracts.Base.{ℕ, Option, none, some, List, Result, ok, ◌>>=◌, collect}
use anchor_token_contracts.Base.Buckets.{Bucket}
use anchor_token_contracts.Cosmwasm.{CanonicalAddr, HumanAddr, Deps, OrderBy}
use anchor_token_contracts.Paging.{page}
use anchor_token_contracts.Vesting.Types.{VestingInfo, Storage, read_config, read_vesting_info}

pub record ConfigResponse : Type 0 where
  pub owner : HumanAddr
  pub anchor_token : HumanAddr
  pub genesis_time : ℕ

pub record VestingAccountResponse : Type 0 where
  pub address : HumanAddr
  pub info : VestingInfo

unfoldable pub read_vesting_infos :
    Storage → Option CanonicalAddr → Option ℕ → Option OrderBy → Bucket VestingInfo
read_vesting_infos s start_after limit order_by = page s.vesting_infos start_after limit order_by

module _ (d : Deps) where
  unfoldable pub query_config : Storage → Result ConfigResponse
  query_config s = do
    config ← read_config s
    owner ← d.human_address config.owner
    anchor_token ← d.human_address config.anchor_token
    ok (record { owner = owner; anchor_token = anchor_token; genesis_time = config.genesis_time })

  unfoldable pub query_vesting_account : Storage → HumanAddr → Result VestingAccountResponse
  query_vesting_account s address = do
    key ← d.canonical_address address
    info ← read_vesting_info s key
    ok (record { address = address; info = info })

  unfoldable pub account_response : ℕ × VestingInfo → Result VestingAccountResponse
  account_response (key, info) = do
    address ← d.human_address key
    ok (record { address = address; info = info })

  unfoldable pub query_vesting_accounts :
      Storage → Option HumanAddr → Option ℕ → Option OrderBy → Result (List VestingAccountResponse)
  query_vesting_accounts s none limit order_by =
      collect account_response (read_vesting_infos s none limit order_by)
  query_vesting_accounts s (some start_after) limit order_by = do
    start ← d.canonical_address start_after
    collect account_response (read_vesting_infos s (some start) limit order_by)
