-- ===== src/Vesting/Types.antt =====
-- contracts/vesting/src/state.rs and packages/anchor_token/src/vesting.rs.
use anchor_token_contracts.Base.{ℕ, Option, List, Result, not_found, ok_or}
use anchor_token_contracts.Base.Buckets.{Bucket, save, load}
use anchor_token_contracts.Cosmwasm.{CanonicalAddr, HumanAddr}

pub record Config : Type 0 where
  pub owner : CanonicalAddr
  pub anchor_token : CanonicalAddr
  pub genesis_time : ℕ

-- Start time, end time, amount.
abbrev pub Schedule : Type 0
Schedule = ℕ × ℕ × ℕ

pub record VestingInfo : Type 0 where
  pub schedules : List Schedule
  pub last_claim_time : ℕ

pub record VestingAccount : Type 0 where
  pub address : HumanAddr
  pub schedules : List Schedule

pub record Storage : Type 0 where
  pub config : Option Config
  pub vesting_infos : Bucket VestingInfo

abbrev pub read_config : Storage → Result Config
read_config s = ok_or s.config not_found

abbrev pub read_vesting_info : Storage → CanonicalAddr → Result VestingInfo
read_vesting_info s a = load a s.vesting_infos

abbrev pub store_vesting_info : CanonicalAddr → VestingInfo → Storage → Storage
store_vesting_info a i s = record s { vesting_infos = save a i s.vesting_infos }
