-- ===== src/Staking/Rewards.antt =====
-- contracts/staking/src/contract.rs: the reward index and the stakers' accounts.
use anchor_token_contracts.Base.{
  ℕ, List, [], ◌∷◌, Result, ok, ◌>>=◌, ltb, ◌==◌, ◌||◌, if◌then◌else◌, min, max, sub_uint,
}
use anchor_token_contracts.Cosmwasm.{Deps}
use anchor_token_contracts.Staking.Types.{Slot, Config, State, StakerInfo}

module _ (d : Deps) where
  -- One round of the loop over the schedule.
  unfoldable pub add_slot : ℕ → ℕ → ℕ → Slot → Result ℕ
  add_slot block_height last_distributed distributed (start, end, amount) =
      if ltb block_height start || ltb end last_distributed then ok distributed else (do
        passed_blocks ← sub_uint (min end block_height) (max start last_distributed)
        num_blocks ← sub_uint end start
        distribution_amount_per_block ← d.from_ratio amount num_blocks
        slot_amount ← d.uint_mul passed_blocks distribution_amount_per_block
        d.uint_add distributed slot_amount)

  unfoldable pub add_slots : ℕ → ℕ → ℕ → List Slot → Result ℕ
  add_slots block_height last_distributed distributed [] = ok distributed
  add_slots block_height last_distributed distributed (s ∷ schedule) = do
    distributed' ← add_slot block_height last_distributed distributed s
    add_slots block_height last_distributed distributed' schedule

  unfoldable pub compute_reward : Config → State → ℕ → Result State
  compute_reward config state block_height =
      if state.total_bond_amount == 0
      then ok (record state { last_distributed = block_height })
      else (do
        distributed ← add_slots block_height state.last_distributed 0 config.distribution_schedule
        increase ← d.from_ratio distributed state.total_bond_amount
        index ← d.decimal_add state.global_reward_index increase
        ok (record state { last_distributed = block_height; global_reward_index = index }))

  unfoldable pub compute_staker_reward : State → StakerInfo → Result StakerInfo
  compute_staker_reward state info = do
    earned ← d.uint_mul info.bond_amount state.global_reward_index
    paid ← d.uint_mul info.bond_amount info.reward_index
    pending_reward ← d.uint_sub earned paid
    total_pending ← d.uint_add info.pending_reward pending_reward
    ok (record info { reward_index = state.global_reward_index; pending_reward = total_pending })

  unfoldable pub increase_bond_amount : State → StakerInfo → ℕ → Result (State × StakerInfo)
  increase_bond_amount state info amount = do
    total_bond_amount ← d.uint_add state.total_bond_amount amount
    bond_amount ← d.uint_add info.bond_amount amount
    ok (
      record state { total_bond_amount = total_bond_amount },
      record info { bond_amount = bond_amount },
    )

  unfoldable pub decrease_bond_amount : State → StakerInfo → ℕ → Result (State × StakerInfo)
  decrease_bond_amount state info amount = do
    total_bond_amount ← d.uint_sub state.total_bond_amount amount
    bond_amount ← d.uint_sub info.bond_amount amount
    ok (
      record state { total_bond_amount = total_bond_amount },
      record info { bond_amount = bond_amount },
    )
