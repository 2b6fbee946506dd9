-- ===== src/Vesting/Schedules.antt =====
-- Every schedule that the vesting contract stores begins before it ends.
use anchor_token_contracts.Base.{ℕ, ◌≡◌, some, List, [], ◌∷◌, ok, arith, All, ℕ_discrete, subst}
use anchor_token_contracts.Base.Buckets.{may_load, may_load-save}
use anchor_token_contracts.Cosmwasm.{Deps, Env, HandleResponse, CanonicalAddr, IsCosmwasm}
use anchor_token_contracts.Linear.Returns.{IsProper}
use anchor_token_contracts.Vesting.Types.{
  VestingInfo, VestingAccount, Storage, Schedule, Config, store_vesting_info,
}
use anchor_token_contracts.Vesting.Claims.{assert_vesting_schedules}
use anchor_token_contracts.Vesting.Contract.{
  HandleMsg, update, register, claims, handle, register_each, register_vesting_accounts,
  assert_owner_privilege,
}
use anchor_token_contracts.Vesting.Payments.{claim_effect, claims_effect, update_effect}

abbrev pub IsScheduled : Storage → Type 0
IsScheduled s =
    (key : CanonicalAddr) (info : VestingInfo)
    → may_load key s.vesting_infos ≡ some info
    → All IsProper info.schedules

asserted : (l : List Schedule) → assert_vesting_schedules l ≡ ok tt → All IsProper l
unfolding assert_vesting_schedules
asserted [] h = tt
asserted ((start, end, amount) ∷ l) h = (ground arith, asserted l (ground arith))

stored-IsScheduled :
    (s : Storage) (key : CanonicalAddr) (info : VestingInfo)
    → IsScheduled s
    → All IsProper info.schedules
    → IsScheduled (store_vesting_info key info s)
stored-IsScheduled s key info v proper j info' found = elim (ℕ_discrete key j) [
  | yes same ↦
      let e : info' ≡ info = ground (arith, may_load-save key j info s.vesting_infos, found) in
      rw e proper
  | no other ↦ v j info' (ground (arith, may_load-save key j info s.vesting_infos, found))
]

module _ {d : Deps} (laws : IsCosmwasm d) where
  register_each_step :
      (genesis_time : ℕ) (a : VestingAccount) (l : List VestingAccount) (s : Storage) {s' : Storage}
      → register_each d genesis_time (a ∷ l) s ≡ ok s'
      → (assert_vesting_schedules a.schedules ≡ ok tt)
        × (key : CanonicalAddr) × (d.canonical_address a.address ≡ ok key)
        × (register_each d genesis_time l (
              store_vesting_info key
                (record { schedules = a.schedules; last_claim_time = genesis_time })
                s)
            ≡ ok s')
  unfolding register_each
  register_each_step genesis_time a l s h = ground arith

  register_each-IsScheduled :
      (genesis_time : ℕ) (l : List VestingAccount) (s : Storage) {s' : Storage}
      → IsScheduled s
      → register_each d genesis_time l s ≡ ok s'
      → IsScheduled s'
  unfolding register_each
  register_each-IsScheduled genesis_time [] s {s'} v h =
      let same : s ≡ s' = ground arith in subst IsScheduled same v
  register_each-IsScheduled genesis_time (a ∷ l) s v h =
      let (checked, key, _, rest) = register_each_step genesis_time a l s h in
      register_each-IsScheduled genesis_time l _
        (stored-IsScheduled s key _ v (asserted a.schedules checked)) rest

  register_effect :
      (s : Storage) (env : Env) (l : List VestingAccount) {s' : Storage} {r : HandleResponse}
      → handle d s env (register l) ≡ ok (s', r)
      → (config : Config) × (s.config ≡ some config)
        × (d.canonical_address env.sender ≡ ok config.owner)
        × (register_each d config.genesis_time l s ≡ ok s')
  unfolding handle assert_owner_privilege register_vesting_accounts
  register_effect s env l h = ground arith

  -- A message that succeeds on a contract whose stored schedules all begin before they end leaves
  -- a contract of that kind.
  pub handle-IsScheduled :
      (s : Storage) (env : Env) (m : HandleMsg) {s' : Storage} {r : HandleResponse}
      → IsScheduled s
      → handle d s env m ≡ ok (s', r)
      → IsScheduled s'
  handle-IsScheduled s env (register l) v h =
      let (config, _, _, e) = register_effect s env l h in
      register_each-IsScheduled config.genesis_time l s v e
  handle-IsScheduled s env claims v h =
      let (key, _, _, _, info, found, _, _, _, e) =
        claim_effect laws s env (claims_effect laws s env h) in
      rw e (stored-IsScheduled s key _ v (v key info found))
  handle-IsScheduled s env (update o a g) v h =
      let (untouched, _) = update_effect laws s env o a g h in
      λ j info found. v j info (rw untouched at found)
