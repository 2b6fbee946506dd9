-- ===== src/Staking/Queries.antt =====
-- contracts/staking/src/contract.rs: the queries, at the stored state or at a later height.
use anchor_token_contracts.Base.{ℕ, Option, none, some, List, Result, ok, ◌>>=◌}
use anchor_token_contracts.Cosmwasm.{HumanAddr, Deps}
use anchor_token_contracts.Staking.Types.{
  Slot, State, StakerInfo, Storage, read_config, read_state, read_staker_info,
}
use anchor_token_contracts.Staking.Rewards.{compute_reward, compute_staker_reward}

pub record ConfigResponse : Type 0 where
  pub anchor_token : HumanAddr
  pub staking_token : HumanAddr
  pub distribution_schedule : List Slot

pub record StateResponse : Type 0 where
  pub last_distributed : ℕ
  pub total_bond_amount : ℕ
  pub global_reward_index : ℕ

pub record StakerInfoResponse : Type 0 where
  pub staker : HumanAddr
  pub reward_index : ℕ
  pub bond_amount : ℕ
  pub pending_reward : ℕ

module _ (d : Deps) where
  unfoldable pub query_config : Storage → Result ConfigResponse
  query_config s = do
    config ← read_config s
    anchor_token ← d.human_address config.anchor_token
    staking_token ← d.human_address config.staking_token
    ok (record {
      anchor_token = anchor_token;
      staking_token = staking_token;
      distribution_schedule = config.distribution_schedule;
    })

  -- The state, as it would be after a reward computation at the height asked for.
  unfoldable pub state_at : Storage → State → Option ℕ → Result State
  state_at s state none = ok state
  state_at s state (some block_height) = do
    config ← read_config s
    compute_reward d config state block_height

  unfoldable pub query_state : Storage → Option ℕ → Result StateResponse
  query_state s block_height = do
    stored ← read_state s
    state ← state_at s stored block_height
    ok (record {
      last_distributed = state.last_distributed;
      total_bond_amount = state.total_bond_amount;
      global_reward_index = state.global_reward_index;
    })

  unfoldable pub staker_at : Storage → StakerInfo → Option ℕ → Result StakerInfo
  staker_at s info none = ok info
  staker_at s info (some block_height) = do
    config ← read_config s
    stored ← read_state s
    state ← compute_reward d config stored block_height
    compute_staker_reward d state info

  unfoldable pub query_staker_info : Storage → HumanAddr → Option ℕ → Result StakerInfoResponse
  query_staker_info s staker block_height = do
    key ← d.canonical_address staker
    info ← staker_at s (read_staker_info s key) block_height
    ok (record {
      staker = staker;
      reward_index = info.reward_index;
      bond_amount = info.bond_amount;
      pending_reward = info.pending_reward;
    })
