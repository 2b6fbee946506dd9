-- ===== src/Staking/Types.antt =====
-- contracts/staking/src/state.rs.
use anchor_token_contracts.Base.{ℕ, Option, some, List, Result, not_found, ok_or, unwrap_or}
use anchor_token_contracts.Base.Buckets.{Bucket, save, remove, may_load}
use anchor_token_contracts.Cosmwasm.{CanonicalAddr}

-- Start height, end height, amount.
abbrev pub Slot : Type 0
Slot = ℕ × ℕ × ℕ

pub record Config : Type 0 where
  pub anchor_token : CanonicalAddr
  pub staking_token : CanonicalAddr
  pub distribution_schedule : List Slot

pub record State : Type 0 where
  pub last_distributed : ℕ
  pub total_bond_amount : ℕ
  pub global_reward_index : ℕ

pub record StakerInfo : Type 0 where
  pub reward_index : ℕ
  pub bond_amount : ℕ
  pub pending_reward : ℕ

pub record Storage : Type 0 where
  pub config : Option Config
  pub state : Option State
  pub stakers : Bucket StakerInfo

abbrev pub read_config : Storage → Result Config
read_config s = ok_or s.config not_found

abbrev pub read_state : Storage → Result State
read_state s = ok_or s.state not_found

abbrev pub store_state : State → Storage → Storage
store_state st s = record s { state = some st }

abbrev pub store_staker_info : CanonicalAddr → StakerInfo → Storage → Storage
store_staker_info owner info s = record s { stakers = save owner info s.stakers }

abbrev pub remove_staker_info : CanonicalAddr → Storage → Storage
remove_staker_info owner s = record s { stakers = remove owner s.stakers }

abbrev pub no_stake : StakerInfo
no_stake = record { reward_index = 0; bond_amount = 0; pending_reward = 0 }

-- A staker who is not stored has nothing.
abbrev pub read_staker_info : Storage → CanonicalAddr → StakerInfo
read_staker_info s owner = unwrap_or (may_load owner s.stakers) no_stake
