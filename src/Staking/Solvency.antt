-- ===== src/Staking/Solvency.antt =====
-- What the staking contract pays in rewards over a sequence of messages.
use anchor_token_contracts.Base.{ℕ, ◌+◌, ◌*◌, ◌≤◌, ◌≡◌, refl, List, [], some, ok, arith, subst}
use anchor_token_contracts.Base.Sums.{sum_by}
use anchor_token_contracts.Cosmwasm.{
  Deps, Env, HandleResponse, HumanAddr, CanonicalAddr, IsCosmwasm, decimal_one,
}
use anchor_token_contracts.Linear.{vested, vested_mono, vested_bound, amount_of}
use anchor_token_contracts.Staking.Types.{Slot, Storage, State, Config}
use anchor_token_contracts.Staking.Contract.{HandleMsg, init, handle}
use anchor_token_contracts.Staking.Bonds.{bond_of, total_of, IsBonded, handle-IsBonded}
use anchor_token_contracts.Staking.Accrual.{compute_reward_grows}
use anchor_token_contracts.Staking.Books.{Backed, settle-Backed}
use anchor_token_contracts.Staking.Settlement.{rewards_in, handle-Settles}

-- The books of a contract whose messages came at heights up to `now`.
abbrev pub IsSolvent : ℕ → Config → ℕ → ℕ → ℕ → Storage → Type 0
IsSolvent genesis config now paid count s =
    (s.config ≡ some config)
    × (state : State) × (s.state ≡ some state)
    × (state.last_distributed ≤ now)
    × IsBonded s
    × Backed genesis paid count config.distribution_schedule state s.stakers

-- `Run d s now paid count s'`: `count` messages that succeed, in order of height from `genesis` on,
-- take `s` to `s'` and pay `paid` in rewards.
pub data Run (d : Deps) (genesis : ℕ) (s : Storage) : ℕ → ℕ → ℕ → Storage → Type 0 where
  started : Run d genesis s genesis 0 0 s
  called :
      {now paid count : ℕ} {u v : Storage}
      → Run d genesis s now paid count u
      → (env : Env) (m : HandleMsg) (r : HandleResponse) → now ≤ env.block_height
      → handle d u env m ≡ ok (v, r)
      → Run d genesis s env.block_height (paid + rewards_in m r) (count + 1) v

module _ {d : Deps} (laws : IsCosmwasm d) where
  handle-IsSolvent :
      (genesis now paid count : ℕ) (config : Config) (s : Storage) (env : Env) (m : HandleMsg)
      {s' : Storage} {r : HandleResponse}
      → now ≤ env.block_height
      → IsSolvent genesis config now paid count s
      → handle d s env m ≡ ok (s', r)
      → IsSolvent genesis config env.block_height (paid + rewards_in m r) (count + 1) s'
  handle-IsSolvent genesis now paid count config s env m {s'} {r} le
        (conf, state, stored, past, v, books) h =
      let (key, total, state', computed, info, settled, final, forget, index, pending, empty, e) =
        handle-Settles d s env m config state conf stored h in
      let bonded : state.total_bond_amount ≡ sum_by bond_of s.stakers =
        subst (λ o. total_of o ≡ sum_by bond_of s.stakers) stored v.total in
      let (last, _, _, _, _) =
        compute_reward_grows laws config state env.block_height (omega arith) computed in
      (
        rw e conf,
        record state' { total_bond_amount = total },
        rw e refl,
        omega (arith, last),
        handle-IsBonded laws s env m v h,
        rw e (
            settle-Backed laws genesis paid count env.block_height (rewards_in m r) config state
              state' key info final forget s.stakers v.ascending bonded (omega arith) computed
              settled index pending empty books),
      )

  pub init_effect :
      (env : Env) (a t : HumanAddr) (schedule : List Slot) {s : Storage}
      → init d env a t schedule ≡ ok s
      → (token : CanonicalAddr) × (d.canonical_address a ≡ ok token)
        × (staked : CanonicalAddr) × (d.canonical_address t ≡ ok staked)
        × (s ≡ record {
          config = some (record {
            anchor_token = token;
            staking_token = staked;
            distribution_schedule = schedule;
          });
          state = some (record {
            last_distributed = env.block_height;
            total_bond_amount = 0;
            global_reward_index = 0;
          });
          stakers = [];
        })
  unfolding init
  init_effect env a t schedule h = ground arith

  pub init-IsSolvent :
      (env : Env) (a t : HumanAddr) (schedule : List Slot) {s : Storage}
      → init d env a t schedule ≡ ok s
      → (config : Config) × (config.distribution_schedule ≡ schedule)
        × IsSolvent env.block_height config env.block_height 0 0 s
  init-IsSolvent env a t schedule h =
      let (token, _, staked, _, e) = init_effect env a t schedule h in
      (
        record { anchor_token = token; staking_token = staked; distribution_schedule = schedule },
        refl,
        rw e (
          refl,
          record {
            last_distributed = env.block_height;
            total_bond_amount = 0;
            global_reward_index = 0;
          },
          refl,
          omega arith,
          record { ascending = tt; total = refl },
          (tt, omega arith),
        ),
      )

  pub Run-IsSolvent :
      (genesis : ℕ) (config : Config) (s : Storage) {now paid count : ℕ} {t : Storage}
      → IsSolvent genesis config genesis 0 0 s
      → Run d genesis s now paid count t
      → IsSolvent genesis config now paid count t
  Run-IsSolvent genesis config s v started = v
  Run-IsSolvent genesis config s v (called {now} {paid} {count} {u} run env m r le h) =
      handle-IsSolvent genesis now paid count config u env m le
        (Run-IsSolvent genesis config s v run) h

  -- From the contract's start on, whatever messages succeed in order of height: the rewards that
  -- withdrawals pay come to no more than the schedule releases since the start, and to no more
  -- than the amounts of the schedule, but for less than one token a message that rounding may add.
  pub rewards_bound :
      (env : Env) (a t : HumanAddr) (schedule : List Slot) (s : Storage) {now paid count : ℕ}
      {s' : Storage}
      → init d env a t schedule ≡ ok s
      → Run d env.block_height s now paid count s'
      → (paid + vested env.block_height schedule ≤ vested now schedule + count)
        × (paid ≤ amount_of schedule + count)
  rewards_bound env a t schedule s {now} {paid} {count} h run =
      let (config, same, v) = init-IsSolvent env a t schedule h in
      let (_, state, _, past, _, books) = Run-IsSolvent env.block_height config s v run in
      let whole = vested_bound now schedule in
      let mono = vested_mono state.last_distributed now schedule past in
      let books' =
        subst
          (λ l.
            (paid + vested env.block_height l) * decimal_one
            ≤ (vested state.last_distributed l + count) * decimal_one)
          same (omega (arith, books)) in
      (omega arith, omega arith)
