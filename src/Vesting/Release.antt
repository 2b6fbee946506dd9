-- ===== src/Vesting/Release.antt =====
-- What a claim may pay: no more than its schedules release after the last claim.
use anchor_token_contracts.Base.{ℕ, ◌+◌, ◌≤◌, ◌≡◌, List, [], ◌∷◌, ok, arith, inl, inr, Result-cases}
use anchor_token_contracts.Cosmwasm.{Deps, IsCosmwasm}
use anchor_token_contracts.Linear.{Round, Round-bound, vested}
use anchor_token_contracts.Vesting.Types.{Schedule, VestingInfo}
use anchor_token_contracts.Vesting.Claims.{add_release, add_releases, compute_claim_amount}

module _ {d : Deps} (laws : IsCosmwasm d) where
  add_release-Round :
      (now last claimable : ℕ) (s : Schedule) {c : ℕ}
      → add_release d now last claimable s ≡ ok c
      → Round d now last claimable s c
  unfolding add_release
  add_release-Round now last claimable (start, end, amount) h = ground arith

  add_releases_bound :
      (now last claimable : ℕ) (l : List Schedule) {c : ℕ}
      → last ≤ now
      → add_releases d now last claimable l ≡ ok c
      → c + vested last l ≤ claimable + vested now l
  unfolding add_releases
  add_releases_bound now last claimable [] le h = ground arith
  add_releases_bound now last claimable (s ∷ l) {c} le h =
      elim (Result-cases (add_release d now last claimable s)) [
        | inl (next, e) ↦
            let rest : add_releases d now last next l ≡ ok c = ground arith in
            omega (
              arith,
              Round-bound laws now last claimable s le (add_release-Round now last claimable s e),
              add_releases_bound now last next l le rest,
            )
        | inr (bad, e) ↦ cc (rw (e, add_releases) at h)
      ]

  pub claim_amount_bound :
      (now : ℕ) (info : VestingInfo) {c : ℕ}
      → info.last_claim_time ≤ now
      → compute_claim_amount d now info ≡ ok c
      → c + vested info.last_claim_time info.schedules ≤ vested now info.schedules
  unfolding compute_claim_amount
  claim_amount_bound now info le h =
      omega (arith, add_releases_bound now info.last_claim_time 0 info.schedules le h)
