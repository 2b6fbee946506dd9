-- ===== src/Vesting/Claims.antt =====
-- contracts/vesting/src/contract.rs: `compute_claim_amount` and `assert_vesting_schedules`.
use anchor_token_contracts.Base.{
  ℕ, List, [], ◌∷◌, Result, ok, generic_err, ◌>>=◌, ◌>>◌, ltb, leb, ◌||◌, if◌then◌else◌, min, max,
  sub_uint, fail_if,
}
use anchor_token_contracts.Cosmwasm.{Deps}
use anchor_token_contracts.Vesting.Types.{Schedule, VestingInfo}

unfoldable pub assert_vesting_schedules : List Schedule → Result (Unit {0})
assert_vesting_schedules [] = ok tt
assert_vesting_schedules ((start, end, _) ∷ schedules) = do
  fail_if (leb end start) (generic_err "end_time must bigger than start_time")
  assert_vesting_schedules schedules

module _ (d : Deps) where
  -- One round of the loop: what the schedule releases between the last claim and now.
  unfoldable pub add_release : ℕ → ℕ → ℕ → Schedule → Result ℕ
  add_release current_time last_claim_time claimable (start, end, amount) =
      if ltb current_time start || ltb end last_claim_time then ok claimable else (do
        passed_time ← sub_uint (min end current_time) (max start last_claim_time)
        time_period ← sub_uint end start
        release_amount_per_time ← d.from_ratio amount time_period
        released ← d.uint_mul passed_time release_amount_per_time
        d.uint_add claimable released)

  unfoldable pub add_releases : ℕ → ℕ → ℕ → List Schedule → Result ℕ
  add_releases current_time last_claim_time claimable [] = ok claimable
  add_releases current_time last_claim_time claimable (s ∷ schedules) = do
    claimable' ← add_release current_time last_claim_time claimable s
    add_releases current_time last_claim_time claimable' schedules

  unfoldable pub compute_claim_amount : ℕ → VestingInfo → Result ℕ
  compute_claim_amount current_time info =
      add_releases current_time info.last_claim_time 0 info.schedules
