-- ===== src/Staking/Effects.antt =====
-- What an operation on the stakes has computed and written when it succeeds.
use anchor_token_contracts.Base.{ℕ, ◌≤◌, ◌≡◌, some, ok, arith, [], ◌∷◌}
use anchor_token_contracts.Cosmwasm.{Deps, Env, HandleResponse, HumanAddr, CanonicalAddr, transfer}
use anchor_token_contracts.Staking.Types.{
  Storage, State, StakerInfo, Config, store_state, read_staker_info, store_staker_info,
}
use anchor_token_contracts.Staking.Rewards.{
  compute_reward, compute_staker_reward, increase_bond_amount, decrease_bond_amount,
}
use anchor_token_contracts.Staking.Contract.{bond, unbond, withdraw, keep_staker, keep_bonded}

module _ (d : Deps) where
  pub compute_reward_total :
      (config : Config) (state : State) (h : ℕ) {state' : State}
      → compute_reward d config state h ≡ ok state'
      → state'.total_bond_amount ≡ state.total_bond_amount
  unfolding compute_reward
  compute_reward_total config state h e = ground arith

  pub compute_staker_reward_bond :
      (state : State) (info : StakerInfo) {info' : StakerInfo}
      → compute_staker_reward d state info ≡ ok info'
      → info'.bond_amount ≡ info.bond_amount
  unfolding compute_staker_reward
  compute_staker_reward_bond state info e = ground arith

  pub bond_effect :
      (s : Storage) (env : Env) (sender : HumanAddr) (amount : ℕ) {s' : Storage}
      {r : HandleResponse}
      → bond d s env sender amount ≡ ok (s', r)
      → (key : CanonicalAddr) × (d.canonical_address sender ≡ ok key)
        × (config : Config) × (s.config ≡ some config)
        × (state : State) × (s.state ≡ some state)
        × (state' : State) × (compute_reward d config state env.block_height ≡ ok state')
        × (info : StakerInfo) × (compute_staker_reward d state' (read_staker_info s key) ≡ ok info)
        × (total : ℕ) × (d.uint_add state'.total_bond_amount amount ≡ ok total)
        × (bonded : ℕ) × (d.uint_add info.bond_amount amount ≡ ok bonded)
        × (s'
            ≡ store_state
                (record state' { total_bond_amount = total })
                (store_staker_info key (record info { bond_amount = bonded }) s))
  unfolding bond increase_bond_amount
  bond_effect s env sender amount h = ground arith

  pub unbond_effect :
      (s : Storage) (env : Env) (amount : ℕ) {s' : Storage} {r : HandleResponse}
      → unbond d s env amount ≡ ok (s', r)
      → (key : CanonicalAddr) × (d.canonical_address env.sender ≡ ok key)
        × (config : Config) × (s.config ≡ some config)
        × (state : State) × (s.state ≡ some state)
        × (state' : State) × (compute_reward d config state env.block_height ≡ ok state')
        × (info : StakerInfo) × (compute_staker_reward d state' (read_staker_info s key) ≡ ok info)
        × (total : ℕ) × (d.uint_sub state'.total_bond_amount amount ≡ ok total)
        × (bonded : ℕ) × (d.uint_sub info.bond_amount amount ≡ ok bonded)
        × (amount ≤ (read_staker_info s key).bond_amount)
        × (s'
            ≡ store_state
                (record state' { total_bond_amount = total })
                (keep_staker d key (record info { bond_amount = bonded }) s))
  unfolding unbond decrease_bond_amount
  unbond_effect s env amount h = ground arith

  pub withdraw_effect :
      (s : Storage) (env : Env) {s' : Storage} {r : HandleResponse}
      → withdraw d s env ≡ ok (s', r)
      → (key : CanonicalAddr) × (d.canonical_address env.sender ≡ ok key)
        × (config : Config) × (s.config ≡ some config)
        × (state : State) × (s.state ≡ some state)
        × (state' : State) × (compute_reward d config state env.block_height ≡ ok state')
        × (info : StakerInfo) × (compute_staker_reward d state' (read_staker_info s key) ≡ ok info)
        × (token : HumanAddr) × (d.human_address config.anchor_token ≡ ok token)
        × (r.messages
            ≡ record {
              contract_addr = token;
              msg = transfer env.sender info.pending_reward;
              coins = [];
            }
              ∷ [])
        × (s' ≡ store_state state' (keep_bonded d key (record info { pending_reward = 0 }) s))
  unfolding withdraw
  withdraw_effect s env h = ground arith

  -- An unbonding sends the amount in one transfer of the staking token to the sender.
  pub unbond_messages :
      (u : Storage) (env : Env) (amount : ℕ) (config : Config) (token : HumanAddr) {u' : Storage}
      {r : HandleResponse}
      → u.config ≡ some config
      → d.human_address config.staking_token ≡ ok token
      → unbond d u env amount ≡ ok (u', r)
      → r.messages
        ≡ record { contract_addr = token; msg = transfer env.sender amount; coins = [] } ∷ []
  unfolding unbond
  unbond_messages u env amount config token conf named h = ground arith
