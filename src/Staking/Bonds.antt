-- ===== src/Staking/Bonds.antt =====
-- The total of the bonds against the stakers' bonds.
use anchor_token_contracts.Base.{
  ℕ, ◌+◌, ◌≡◌, refl, Option, none, some, Result, ok, arith, unwrap_or, Bool, true, false, err, ◌==◌,
  ◌&&◌, if◌then◌else◌,
}
use anchor_token_contracts.Base.Buckets.{may_load, save, remove}
use anchor_token_contracts.Base.Sums.{
  Ascending, sum_by, weight, save-Ascending, sum_by-save, remove-Ascending, sum_by-remove,
}
use anchor_token_contracts.Cosmwasm.{
  Deps, Env, HandleResponse, HumanAddr, CanonicalAddr, IsCosmwasm,
}
use anchor_token_contracts.Cosmwasm.Laws.{add_value, sub_value}
use anchor_token_contracts.Staking.Types.{
  Storage, State, StakerInfo, no_stake, store_state, read_staker_info, store_staker_info,
  remove_staker_info,
}
use anchor_token_contracts.Staking.Contract.{
  Cw20HookMsg, bonds, HandleMsg, receive, unbonds, withdraws, bond, unbond, withdraw, run_hook,
  receive_cw20, handle,
}
use anchor_token_contracts.Staking.Effects.{
  compute_reward_total, compute_staker_reward_bond, bond_effect, unbond_effect, withdraw_effect,
}

abbrev pub bond_of : StakerInfo → ℕ
bond_of i = i.bond_amount

abbrev pub total_of : Option State → ℕ
total_of none = 0
total_of (some state) = state.total_bond_amount

-- The total is the sum of the stakers' bonds.
pub record IsBonded (s : Storage) : Type 0 where
  pub ascending : Ascending s.stakers
  pub total : total_of s.state ≡ sum_by bond_of s.stakers

-- The ways in which a message changes the bonds.
data BondChange (s s' : Storage) : Type 0 where
  saves :
      (key : CanonicalAddr) (i : StakerInfo)
      → s'.stakers ≡ save key i s.stakers
      → total_of s'.state + weight bond_of (may_load key s.stakers)
        ≡ total_of s.state + i.bond_amount
      → BondChange s s'
  removes :
      (key : CanonicalAddr)
      → s'.stakers ≡ remove key s.stakers
      → total_of s'.state + weight bond_of (may_load key s.stakers) ≡ total_of s.state
      → BondChange s s'

BondChange-IsBonded : {s s' : Storage} → IsBonded s → BondChange s s' → IsBonded s'
BondChange-IsBonded {s} v (saves key i stakers total) = record {
  ascending = rw stakers (save-Ascending key i s.stakers v.ascending);
  total =
      rw stakers (omega (arith, total, v.total, sum_by-save bond_of key i s.stakers v.ascending));
}
BondChange-IsBonded {s} v (removes key stakers total) = record {
  ascending = rw stakers (remove-Ascending key s.stakers v.ascending);
  total =
      rw stakers (omega (arith, total, v.total, sum_by-remove bond_of key s.stakers v.ascending));
}

pub bond-default : (o : Option StakerInfo) → (unwrap_or o no_stake).bond_amount ≡ weight bond_of o
bond-default none = refl
bond-default (some i) = refl

-- Storing an account, or forgetting one that has no bond.
stored-BondChange :
    (s : Storage) (state' : State) (key : CanonicalAddr) (i : StakerInfo) (forget : Bool)
    → state'.total_bond_amount + weight bond_of (may_load key s.stakers)
      ≡ total_of s.state + i.bond_amount
    → (forget ≡ true → i.bond_amount ≡ 0)
    → BondChange s (
        store_state state' (if forget then remove_staker_info key s else store_staker_info key i s))
stored-BondChange s state' key i true sum empty =
    let zero_bond = empty refl in removes key refl (omega (arith, sum, zero_bond))
stored-BondChange s state' key i false sum empty = saves key i refl sum

module _ {d : Deps} (laws : IsCosmwasm d) where
  bond-BondChange :
      (s : Storage) (env : Env) (sender : HumanAddr) (amount : ℕ) {s' : Storage}
      {r : HandleResponse}
      → bond d s env sender amount ≡ ok (s', r)
      → BondChange s s'
  bond-BondChange s env sender amount h =
      let (
        key, _, config, _, state, stored, state', computed, info, rewarded, total, total_sum,
        bonded, bonded_sum, e,
      ) =
        bond_effect d s env sender amount h in
      let same_total = compute_reward_total d config state env.block_height computed in
      let same_bond = compute_staker_reward_bond d state' (read_staker_info s key) rewarded in
      let total_is = add_value laws state'.total_bond_amount amount total_sum in
      let bonded_is = add_value laws info.bond_amount amount bonded_sum in
      let default = bond-default (may_load key s.stakers) in
      rw e (saves key (record info { bond_amount = bonded }) refl (rw stored (omega arith)))

  unbond-BondChange :
      (s : Storage) (env : Env) (amount : ℕ) {s' : Storage} {r : HandleResponse}
      → unbond d s env amount ≡ ok (s', r)
      → BondChange s s'
  unbond-BondChange s env amount h =
      let (
        key, _, config, _, state, stored, state', computed, info, rewarded, total, total_sum,
        bonded, bonded_sum, _, e,
      ) =
        unbond_effect d s env amount h in
      let same_total = compute_reward_total d config state env.block_height computed in
      let same_bond = compute_staker_reward_bond d state' (read_staker_info s key) rewarded in
      let (enough, total_is) = sub_value laws state'.total_bond_amount amount total_sum in
      let (enough', bonded_is) = sub_value laws info.bond_amount amount bonded_sum in
      let default = bond-default (may_load key s.stakers) in
      rw e (
        stored-BondChange s (record state' { total_bond_amount = total }) key
          (record info { bond_amount = bonded }) ((info.pending_reward == 0) && (bonded == 0))
          (rw stored (omega arith)) (λ gone. ground arith))

  withdraw-BondChange :
      (s : Storage) (env : Env) {s' : Storage} {r : HandleResponse}
      → withdraw d s env ≡ ok (s', r)
      → BondChange s s'
  withdraw-BondChange s env h =
      let (key, _, config, _, state, stored, state', computed, info, rewarded, _, _, _, e) =
        withdraw_effect d s env h in
      let same_total = compute_reward_total d config state env.block_height computed in
      let same_bond = compute_staker_reward_bond d state' (read_staker_info s key) rewarded in
      let default = bond-default (may_load key s.stakers) in
      rw e (
        stored-BondChange s state' key (record info { pending_reward = 0 }) (info.bond_amount == 0)
          (rw stored (omega arith)) (λ gone. ground arith))

  receive-BondChange :
      (s : Storage) (env : Env) (sender : HumanAddr) (amount : ℕ)
      (hook : Result (Option Cw20HookMsg)) {s' : Storage} {r : HandleResponse}
      → run_hook d s env sender amount hook ≡ ok (s', r)
      → BondChange s s'
  unfolding run_hook
  receive-BondChange s env sender amount (ok none) h = cc
  receive-BondChange s env sender amount (err e) h = ground arith
  receive-BondChange s env sender amount (ok (some bonds)) {s'} {r} h =
      let bonded : bond d s env sender amount ≡ ok (s', r) = ground arith in
      bond-BondChange s env sender amount bonded

  -- A message that succeeds keeps the total of the bonds equal to the sum of the stakers' bonds.
  pub handle-IsBonded :
      (s : Storage) (env : Env) (m : HandleMsg) {s' : Storage} {r : HandleResponse}
      → IsBonded s
      → handle d s env m ≡ ok (s', r)
      → IsBonded s'
  unfolding handle receive_cw20
  handle-IsBonded s env (receive m) v h =
      BondChange-IsBonded v (receive-BondChange s env m.cw20_sender m.cw20_amount m.hook h)
  handle-IsBonded s env (unbonds amount) v h =
      BondChange-IsBonded v (unbond-BondChange s env amount h)
  handle-IsBonded s env withdraws v h = BondChange-IsBonded v (withdraw-BondChange s env h)
