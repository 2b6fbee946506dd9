-- ===== src/Staking/Books.antt =====
-- The books of the staking contract: what was paid and what is owed.
use anchor_token_contracts.Base.{
  ℕ, ◌+◌, ◌-◌, ◌*◌, ◌≤◌, ◌≡◌, refl, List, Option, none, some, ok, arith, Bool, true, false,
  if◌then◌else◌, unwrap_or, ap, ◌∙◌,
}
use anchor_token_contracts.Base.Buckets.{Bucket, may_load, save, remove}
use anchor_token_contracts.Base.Sums.{Ascending, sum_by, weight, sum_by-save, sum_by-remove}
use anchor_token_contracts.Cosmwasm.{Deps, CanonicalAddr, IsCosmwasm, decimal_one}
use anchor_token_contracts.Linear.{vested}
use anchor_token_contracts.Staking.Types.{Slot, State, StakerInfo, Config, no_stake}
use anchor_token_contracts.Staking.Rewards.{compute_reward, compute_staker_reward}
use anchor_token_contracts.Staking.Bonds.{bond_of}
use anchor_token_contracts.Staking.Accrual.{
  owed, Behind, save-Behind, remove-Behind, Behind-mono, stake-Behind, owed-grow,
  compute_reward_grows, settled_bound,
}

-- Everything paid and owed has been released, but for one token for each message.
abbrev pub Backed : ℕ → ℕ → ℕ → List Slot → State → Bucket StakerInfo → Type 0
Backed genesis paid count schedule state stakers =
    Behind state.global_reward_index stakers
    × ((paid + vested genesis schedule) * decimal_one
          + sum_by (owed state.global_reward_index) stakers
        ≤ (vested state.last_distributed schedule + count) * decimal_one)

owed-default :
    (index : ℕ) (o : Option StakerInfo) → owed index (unwrap_or o no_stake) ≡ weight (owed index) o
owed-default index none = omega arith
owed-default index (some i) = refl

abbrev pub written : CanonicalAddr → StakerInfo → Bool → Bucket StakerInfo → Bucket StakerInfo
written key i forget b = if forget then remove key b else save key i b

written_sum :
    (f : StakerInfo → ℕ) (key : CanonicalAddr) (i : StakerInfo) (forget : Bool)
    (b : Bucket StakerInfo)
    → Ascending b
    → (forget ≡ true → f i ≡ 0)
    → sum_by f (written key i forget b) + weight f (may_load key b) ≡ sum_by f b + f i
written_sum f key i true b a empty =
    let zero_owed = empty refl in omega (arith, sum_by-remove f key b a, zero_owed)
written_sum f key i false b a empty = sum_by-save f key i b a

written-Behind :
    (index : ℕ) (key : CanonicalAddr) (i : StakerInfo) (forget : Bool) (b : Bucket StakerInfo)
    → i.reward_index ≤ index
    → Behind index b
    → Behind index (written key i forget b)
written-Behind index key i true b h l = remove-Behind index key b l
written-Behind index key i false b h l = save-Behind index key i b h l

module _ {d : Deps} (laws : IsCosmwasm d) where
  -- Settling one account and paying `out` of it keeps the books, up to one token.
  pub settle-Backed :
      (genesis paid count height out : ℕ) (config : Config) (state state' : State)
      (key : CanonicalAddr) (info final : StakerInfo) (forget : Bool) (b : Bucket StakerInfo)
      → Ascending b
      → state.total_bond_amount ≡ sum_by bond_of b
      → state.last_distributed ≤ height
      → compute_reward d config state height ≡ ok state'
      → compute_staker_reward d state' (unwrap_or (may_load key b) no_stake) ≡ ok info
      → final.reward_index ≡ info.reward_index
      → final.pending_reward + out ≡ info.pending_reward
      → (forget ≡ true → final.pending_reward ≡ 0)
      → Backed genesis paid count config.distribution_schedule state b
      → Backed genesis
          (paid + out)
          (count + 1)
          config.distribution_schedule
          state'
          (written key final forget b)
  settle-Backed genesis paid count height out config state state' key info final forget b ascending
        bonded le computed settled index pending empty (behind, books) =
      let (last, total, grown, grows, released) =
        compute_reward_grows laws config state height le computed in
      let behind' : Behind state'.global_reward_index b =
        Behind-mono state.global_reward_index state'.global_reward_index b (omega (arith, grows))
          behind in
      let old = unwrap_or (may_load key b) no_stake in
      let (settled_index, _, rounding) =
        settled_bound laws state' old (stake-Behind state'.global_reward_index key b behind')
          settled in
      let index' : final.reward_index ≡ state'.global_reward_index = index ∙ settled_index in
      let final_owed : owed state'.global_reward_index final ≡ final.pending_reward * decimal_one =
        let zero_growth : state'.global_reward_index - final.reward_index ≡ 0 =
          omega (arith, index') in
        rw zero_growth (omega arith) in
      let sum =
        written_sum (owed state'.global_reward_index) key final forget b ascending
          (λ gone. omega (arith, final_owed, empty gone)) in
      let growth : sum_by (owed state'.global_reward_index) b
          ≡ sum_by (owed state.global_reward_index) b + grown * sum_by bond_of b =
        rw grows (owed-grow state.global_reward_index grown b behind) in
      let bonded' = ap (λ (n : ℕ). grown * n) bonded in
      let default = owed-default state'.global_reward_index (may_load key b) in
      (
        written-Behind state'.global_reward_index key final forget b (omega (arith, index'))
            behind',
        rw last (omega arith),
      )
