-- ===== src/Staking/Recovery.antt =====
-- A staker can take the bond back.
use native.Mathlib.Nat.{div-mul-le_self, mul-le-mul_left, le_trans, div-le_self, le-div_iff_mul-le}
use mathlib.Core.Path.{fun_ext}
use anchor_token_contracts.Base.{
  ℕ, ◌+◌, ◌-◌, ◌*◌, ◌/◌, ◌≤◌, ◌<◌, ◌≡◌, refl, some, List, [], ◌∷◌, ok, arith, u128_mod, All, ap,
  ◌∙◌, ◌>>=◌, ℕ_discrete, ltb, false, subst, returned,
}
use anchor_token_contracts.Base.Buckets.{may_load}
use anchor_token_contracts.Base.Sums.{sum_by, weight-le-sum_by}
use anchor_token_contracts.Cosmwasm.{
  Deps, IsCosmwasm, Env, HandleResponse, HumanAddr, CanonicalAddr, decimal_one, transfer,
}
use anchor_token_contracts.Linear.{amount_of}
use anchor_token_contracts.Linear.Returns.{IsProper, IsSmall, round, rounds, rounds_returns}
use anchor_token_contracts.Staking.Types.{
  Slot, Config, State, StakerInfo, Storage, read_staker_info,
}
use anchor_token_contracts.Staking.Rewards.{
  add_slot, add_slots, compute_reward, compute_staker_reward, decrease_bond_amount,
}
use anchor_token_contracts.Staking.Contract.{init, unbond}
use anchor_token_contracts.Staking.Bonds.{bond_of, total_of, bond-default}
use anchor_token_contracts.Staking.Effects.{unbond_messages}
use anchor_token_contracts.Staking.Accrual.{stake-Behind}
use anchor_token_contracts.Staking.Solvency.{Run, init-IsSolvent, Run-IsSolvent}

-- The numbers of the schedule and of one staker fit 128 bits, in units of 10⁻¹⁸ tokens.
pub record HasRoom (schedule : List Slot) (state : State) (info : StakerInfo) : Type 0 where
  pub small : All IsSmall schedule
  pub index_fits : state.global_reward_index + amount_of schedule * decimal_one < u128_mod
  pub reward_fits :
      info.pending_reward
        + info.bond_amount * (state.global_reward_index + amount_of schedule * decimal_one)
      < u128_mod

module _ (d : Deps) (laws : IsCosmwasm d) where
  add_slots-rounds :
      (height last distributed : ℕ) (l : List Slot)
      → add_slots d height last distributed l ≡ rounds d height last distributed l
  unfolding add_slots add_slot
  add_slots-rounds height last distributed [] = refl
  add_slots-rounds height last distributed ((start, end, amount) ∷ l) =
      ap (λ f. round d height last distributed (start, end, amount) >>= f)
        (fun_ext (λ next. add_slots-rounds height last next l))

  -- The index grows by no more than the whole schedule.
  compute_reward_returns :
      (config : Config) (state : State) (height : ℕ)
      → state.last_distributed ≤ height
      → All IsProper config.distribution_schedule
      → All IsSmall config.distribution_schedule
      → state.global_reward_index + amount_of config.distribution_schedule * decimal_one < u128_mod
      → (state' : State) × (compute_reward d config state height ≡ ok state')
        × (state.global_reward_index ≤ state'.global_reward_index)
        × (state'.global_reward_index
            ≤ state.global_reward_index + amount_of config.distribution_schedule * decimal_one)
        × (state'.total_bond_amount ≡ state.total_bond_amount)
  unfolding compute_reward
  compute_reward_returns config state height le proper small fits =
      elim (ℕ_discrete state.total_bond_amount 0) [
        | yes nothing ↦ (
          record state { last_distributed = height },
          ground arith,
          omega arith,
          omega arith,
          refl,
        )
        | no something ↦
            let schedule = config.distribution_schedule in
            let last = state.last_distributed in
            let (c, summed, at_most) =
              rounds_returns d laws height last 0 schedule le proper small (omega (arith, fits)) in
            let distributed = add_slots-rounds height last 0 schedule ∙ summed in
            let total = state.total_bond_amount in
            let growth = c * decimal_one / total in
            let ratio = laws.decimal_fits c total something (omega (arith, at_most, fits)) in
            let bound : growth ≤ c * decimal_one = div-le_self (c * decimal_one) total in
            let sum =
              laws.decimal_add_fits state.global_reward_index growth
                (omega (arith, bound, at_most, fits)) in
            (
              record state {
                last_distributed = height;
                global_reward_index = state.global_reward_index + growth;
              },
              ground (arith, distributed, ratio, sum, something),
              omega arith,
              omega (arith, bound, at_most),
              refl,
            )
      ]

  scaled_le : (bond a b : ℕ) → a ≤ b → bond * a / decimal_one ≤ bond * b / decimal_one
  scaled_le bond a b h =
      (le-div_iff_mul-le (omega arith)).1
        (le_trans (div-mul-le_self (bond * a) decimal_one) (mul-le-mul_left bond h))

  compute_staker_reward_returns :
      (state : State) (info : StakerInfo) (top : ℕ)
      → info.reward_index ≤ state.global_reward_index
      → state.global_reward_index ≤ top
      → info.pending_reward + info.bond_amount * top < u128_mod
      → (info' : StakerInfo) × (compute_staker_reward d state info ≡ ok info')
        × (info'.bond_amount ≡ info.bond_amount)
  unfolding compute_staker_reward
  compute_staker_reward_returns state info top behind below fits =
      let bond = info.bond_amount in
      let to_top = mul-le-mul_left bond below in
      let to_index = mul-le-mul_left bond behind in
      let earned = bond * state.global_reward_index / decimal_one in
      let paid = bond * info.reward_index / decimal_one in
      let mul = laws.mul_fits bond state.global_reward_index (omega (arith, to_top, fits)) in
      let mul' = laws.mul_fits bond info.reward_index (omega (arith, to_index, to_top, fits)) in
      let sub = laws.sub_fits earned paid (scaled_le bond _ _ behind) in
      let at_most : earned ≤ bond * state.global_reward_index =
        div-le_self (bond * state.global_reward_index) decimal_one in
      let sum =
        laws.add_fits info.pending_reward (earned - paid) (omega (arith, at_most, to_top, fits)) in
      (
        record info {
          reward_index = state.global_reward_index;
          pending_reward = info.pending_reward + (earned - paid);
        },
        rw (mul, mul', sub, sum) refl,
        refl,
      )

  -- The total covers the amount, and the staker's index is not ahead.
  unbond_covered :
      (u : Storage) (env : Env) (amount : ℕ) (key : CanonicalAddr) (config : Config) (state : State)
      (token : HumanAddr)
      → u.config ≡ some config
      → u.state ≡ some state
      → d.canonical_address env.sender ≡ ok key
      → d.human_address config.staking_token ≡ ok token
      → amount ≤ (read_staker_info u key).bond_amount
      → All IsProper config.distribution_schedule
      → HasRoom config.distribution_schedule state (read_staker_info u key)
      → state.last_distributed ≤ env.block_height
      → amount ≤ state.total_bond_amount
      → (read_staker_info u key).reward_index ≤ state.global_reward_index
      → (ur : Storage × HandleResponse) × (unbond d u env amount ≡ ok ur)
  unfolding unbond decrease_bond_amount
  unbond_covered u env amount key config state token conf stored known named enough proper room le
        covered behind =
      let old = read_staker_info u key in
      let top = state.global_reward_index + amount_of config.distribution_schedule * decimal_one in
      let (state', computed, grows, below, same_total) =
        compute_reward_returns config state env.block_height le proper room.small room.index_fits in
      let (info, rewarded, same_bond) =
        compute_staker_reward_returns state' old top (le_trans behind grows) below
          room.reward_fits in
      let total = laws.sub_fits state'.total_bond_amount amount (rw same_total covered) in
      let bond = laws.sub_fits info.bond_amount amount (rw same_bond enough) in
      let allowed : ltb old.bond_amount amount ≡ false = ground (arith, enough) in
      returned (unbond d u env amount) (λ bad h.
        ground (arith, conf, known, stored, allowed, computed, rewarded, total, bond, named, h))

  -- A staker can take bonded tokens back, if every slot of the schedule begins before it ends,
  -- which `init` does not check: in every state that messages in order of height reach from `init`
  -- with such a schedule, an account unbonds any amount up to its bond, and is sent exactly this
  -- amount, if the token's address can be translated and the numbers fit 128 bits.
  pub unbond_returns :
      (start : Env) (a t : HumanAddr) (schedule : List Slot) (s u : Storage) {now paid count : ℕ}
      (env : Env) (amount : ℕ) (key : CanonicalAddr) (config : Config) (state : State)
      (token : HumanAddr)
      → All IsProper schedule
      → init d start a t schedule ≡ ok s
      → Run d start.block_height s now paid count u
      → now ≤ env.block_height
      → u.config ≡ some config
      → u.state ≡ some state
      → d.canonical_address env.sender ≡ ok key
      → d.human_address config.staking_token ≡ ok token
      → amount ≤ (read_staker_info u key).bond_amount
      → HasRoom config.distribution_schedule state (read_staker_info u key)
      → (u' : Storage) × (r : HandleResponse) × (unbond d u env amount ≡ ok (u', r))
        × (r.messages
            ≡ record { contract_addr = token; msg = transfer env.sender amount; coins = [] } ∷ [])
  unbond_returns start a t schedule s u env amount key config state token proper begun run later
        conf stored known named enough room =
      let (same_config, same_schedule, solvent) = init-IsSolvent laws start a t schedule begun in
      let (conf', state', stored', past, bonded, books) =
        Run-IsSolvent laws start.block_height same_config s solvent run in
      let proper' : All IsProper config.distribution_schedule =
        subst (λ l. All IsProper l) (ground (arith, same_schedule, conf, conf')) proper in
      let same : state' ≡ state = ground (arith, stored, stored') in
      let own = weight-le-sum_by bond_of key u.stakers in
      let total : state.total_bond_amount ≡ sum_by bond_of u.stakers =
        subst (λ o. total_of o ≡ sum_by bond_of u.stakers) stored bonded.total in
      let default = bond-default (may_load key u.stakers) in
      let ((u', r), e) =
        unbond_covered u env amount key config state token conf stored known named enough proper'
          room (subst (λ x. x.last_distributed ≤ env.block_height) same (le_trans past later))
          (omega (arith, enough, default, own, total))
          (subst (λ x. (read_staker_info u key).reward_index ≤ x.global_reward_index) same
            (stake-Behind state'.global_reward_index key u.stakers books.0)) in
      (u', r, e, unbond_messages d u env amount config token conf named e)
