-- ===== src/Staking/Accrual.antt =====
-- The reward index against what the stakers are owed.
use native.Mathlib.Nat.{div-mul-le_self, lt-div-mul-add, mul-add, mul-sub, mul-le-mul_left}
use anchor_token_contracts.Base.{
  ℕ, ◌+◌, ◌-◌, ◌*◌, ◌≤◌, ◌<◌, ◌≡◌, List, [], ◌∷◌, ok, arith, inl, inr, ◌⊎◌, Result-cases,
  ℕ_discrete, ap, unwrap_or,
}
use anchor_token_contracts.Base.Buckets.{Bucket, may_load, save, remove}
use anchor_token_contracts.Base.Sums.{sum_by}
use anchor_token_contracts.Cosmwasm.{Deps, IsCosmwasm, decimal_one}
use anchor_token_contracts.Cosmwasm.Laws.{
  add_value, sub_value, mul_value, decimal_value, decimal_add_value,
}
use anchor_token_contracts.Linear.{Round, Round-bound, vested, vested_mono}
use anchor_token_contracts.Staking.Types.{Slot, State, StakerInfo, Config, no_stake}
use anchor_token_contracts.Staking.Rewards.{
  add_slot, add_slots, compute_reward, compute_staker_reward,
}
use anchor_token_contracts.Staking.Bonds.{bond_of}

-- What a staker is owed at a reward index, in units of 10⁻¹⁸ tokens.
abbrev pub owed : ℕ → StakerInfo → ℕ
owed index i = i.pending_reward * decimal_one + i.bond_amount * (index - i.reward_index)

-- No staker's index is ahead.
abbrev pub Behind : ℕ → Bucket StakerInfo → Type 0
Behind index [] = Unit
Behind index ((k, i) ∷ b) = (i.reward_index ≤ index) × Behind index b

pub save-Behind :
    (index k : ℕ) (i : StakerInfo) (b : Bucket StakerInfo)
    → i.reward_index ≤ index
    → Behind index b
    → Behind index (save k i b)
unfolding save
save-Behind index k i [] h l = (h, tt)
save-Behind index k i ((j, w) ∷ b) h l = ground (arith, save-Behind index k i b h l.1)

pub remove-Behind :
    (index k : ℕ) (b : Bucket StakerInfo) → Behind index b → Behind index (remove k b)
unfolding remove
remove-Behind index k [] l = tt
remove-Behind index k ((j, w) ∷ b) l = ground (arith, remove-Behind index k b l.1)

pub Behind-mono : (a b : ℕ) (l : Bucket StakerInfo) → a ≤ b → Behind a l → Behind b l
Behind-mono a b [] h l = tt
Behind-mono a b ((k, i) ∷ t) h l = (omega arith, Behind-mono a b t h l.1)

pub stake-Behind :
    (index k : ℕ) (b : Bucket StakerInfo)
    → Behind index b
    → (unwrap_or (may_load k b) no_stake).reward_index ≤ index
unfolding may_load
stake-Behind index k [] l = omega arith
stake-Behind index k ((j, w) ∷ b) l = ground (arith, stake-Behind index k b l.1)

owed_grow :
    (i : StakerInfo) (a grown : ℕ)
    → i.reward_index ≤ a
    → owed (a + grown) i ≡ owed a i + grown * i.bond_amount
owed_grow i a grown h =
    let split : a + grown - i.reward_index ≡ (a - i.reward_index) + grown = omega arith in
    rw split (omega (arith, mul-add i.bond_amount (a - i.reward_index) grown))

-- When the index grows, every staker is owed the growth for each token of the bond.
pub owed-grow :
    (a grown : ℕ) (b : Bucket StakerInfo)
    → Behind a b
    → sum_by (owed (a + grown)) b ≡ sum_by (owed a) b + grown * sum_by bond_of b
owed-grow a grown [] l = omega arith
owed-grow a grown ((k, i) ∷ b) l = omega (
  arith,
  owed_grow i a grown l.0,
  owed-grow a grown b l.1,
  mul-add grown i.bond_amount (sum_by bond_of b),
)

module _ {d : Deps} (laws : IsCosmwasm d) where
  add_slot-Round :
      (now last sum : ℕ) (s : Slot) {c : ℕ}
      → add_slot d now last sum s ≡ ok c
      → Round d now last sum s c
  unfolding add_slot
  add_slot-Round now last sum (start, end, amount) h = ground arith

  add_slots_bound :
      (now last sum : ℕ) (l : List Slot) {c : ℕ}
      → last ≤ now
      → add_slots d now last sum l ≡ ok c
      → c + vested last l ≤ sum + vested now l
  unfolding add_slots
  add_slots_bound now last sum [] le h = ground arith
  add_slots_bound now last sum (s ∷ l) {c} le h = elim (Result-cases (add_slot d now last sum s)) [
    | inl (next, e) ↦
        let rest : add_slots d now last next l ≡ ok c = ground arith in
        omega (
          arith,
          Round-bound laws now last sum s le (add_slot-Round now last sum s e),
          add_slots_bound now last next l le rest,
        )
    | inr (bad, e) ↦ cc (rw (e, add_slots) at h)
  ]

  compute_reward_effect :
      (config : Config) (state : State) (h : ℕ) {state' : State}
      → compute_reward d config state h ≡ ok state'
      → (state'.last_distributed ≡ h)
        × (state'.total_bond_amount ≡ state.total_bond_amount)
        × (((state.total_bond_amount ≡ 0)
              × (state'.global_reward_index ≡ state.global_reward_index))
            ⊎ ((total : ℕ) × (add_slots d h state.last_distributed 0 config.distribution_schedule
                  ≡ ok total)
                × (increase : ℕ) × (d.from_ratio total state.total_bond_amount ≡ ok increase)
                × (d.decimal_add state.global_reward_index increase
                    ≡ ok state'.global_reward_index)))
  unfolding compute_reward
  compute_reward_effect config state h e = (
    ground arith,
    ground arith,
    elim (ℕ_discrete state.total_bond_amount 0) [
      | yes nothing ↦ inl (nothing, ground arith)
      | no some_bond ↦ inr (ground arith)
    ],
  )

  -- The index grows by no more than what the schedule releases since the last distribution, for
  -- each token bonded.
  pub compute_reward_grows :
      (config : Config) (state : State) (h : ℕ) {state' : State}
      → state.last_distributed ≤ h
      → compute_reward d config state h ≡ ok state'
      → (state'.last_distributed ≡ h)
        × (state'.total_bond_amount ≡ state.total_bond_amount)
        × (grown : ℕ) × (state'.global_reward_index ≡ state.global_reward_index + grown)
        × (grown * state.total_bond_amount
              + vested state.last_distributed config.distribution_schedule * decimal_one
            ≤ vested h config.distribution_schedule * decimal_one)
  compute_reward_grows config state h le e =
      let (last, total, cases) = compute_reward_effect config state h e in
      elim cases [
        | inl (empty, same) ↦ (
          last,
          total,
          0,
          omega (arith, same),
          omega (arith, vested_mono state.last_distributed h config.distribution_schedule le),
        )
        | inr (sum, summed, increase, priced, added) ↦
            let bound =
              add_slots_bound h state.last_distributed 0 config.distribution_schedule le summed in
            let (pos, value) = decimal_value laws sum state.total_bond_amount priced in
            (
              last,
              total,
              increase,
              decimal_add_value laws state.global_reward_index increase added,
              omega (
                arith,
                value,
                bound,
                div-mul-le_self (sum * decimal_one) state.total_bond_amount,
                ap (λ (n : ℕ). n * state.total_bond_amount) value,
              ),
            )
      ]

  staker_effect :
      (state : State) (i : StakerInfo) {i' : StakerInfo}
      → compute_staker_reward d state i ≡ ok i'
      → (i'.reward_index ≡ state.global_reward_index)
        × (i'.bond_amount ≡ i.bond_amount)
        × (earned : ℕ) × (d.uint_mul i.bond_amount state.global_reward_index ≡ ok earned)
        × (before : ℕ) × (d.uint_mul i.bond_amount i.reward_index ≡ ok before)
        × (pending : ℕ) × (d.uint_sub earned before ≡ ok pending)
        × (d.uint_add i.pending_reward pending ≡ ok i'.pending_reward)
  unfolding compute_staker_reward
  staker_effect state i h = ground arith

  -- Settling a staker's account rounds by less than one token.
  pub settled_bound :
      (state : State) (i : StakerInfo) {i' : StakerInfo}
      → i.reward_index ≤ state.global_reward_index
      → compute_staker_reward d state i ≡ ok i'
      → (i'.reward_index ≡ state.global_reward_index)
        × (i'.bond_amount ≡ i.bond_amount)
        × (i'.pending_reward * decimal_one < owed state.global_reward_index i + decimal_one)
  settled_bound state i le h =
      let (index, bond, earned, earned_is, before, before_is, pending, pending_is, sum) =
        staker_effect state i h in
      let earned_value = mul_value laws i.bond_amount state.global_reward_index earned_is in
      let before_value = mul_value laws i.bond_amount i.reward_index before_is in
      let (enough, pending_value) = sub_value laws earned before pending_is in
      let sum_value = add_value laws i.pending_reward pending sum in
      (
        index,
        bond,
        omega (
          arith,
          earned_value,
          before_value,
          pending_value,
          sum_value,
          div-mul-le_self (i.bond_amount * state.global_reward_index) decimal_one,
          lt-div-mul-add {a = i.bond_amount * i.reward_index} {b = decimal_one} (omega arith),
          mul-sub i.bond_amount state.global_reward_index i.reward_index,
          mul-le-mul_left i.bond_amount le,
        ),
      )
