-- ===== src/Staking/Ledger.antt =====
-- The abstract view of the bonds: a ledger of the staked tokens, without the reward index, the
-- stored order, and the stakers that are kept or forgotten.
use mathlib.Core.Path.{fun_ext}
use anchor_token_contracts.Base.{
  ℕ, ◌+◌, ◌-◌, ◌≡◌, refl, Option, Result, ok, arith, Bool, true, false, ◌==◌, ◌&&◌, if◌then◌else◌,
  ltb, ◌>>=◌, ◌>>◌, fail_if, generic_err, ℕ_discrete, ap, ◌∙◌, sym,
}
use anchor_token_contracts.Base.Buckets.{may_load-save, may_load-remove}
use anchor_token_contracts.Cosmwasm.{
  Deps, Env, HandleResponse, CanonicalAddr, IsCosmwasm, Cw20ReceiveMsg,
}
use anchor_token_contracts.Cosmwasm.Laws.{add_value, sub_value}
use anchor_token_contracts.Staking.Types.{
  Storage, StakerInfo, read_staker_info, store_staker_info, remove_staker_info,
}
use anchor_token_contracts.Staking.Contract.{
  Cw20HookMsg, HandleMsg, receive, unbonds, withdraws, bond, unbond, withdraw, run_hook,
  receive_cw20, handle,
}
use anchor_token_contracts.Staking.Effects.{
  compute_staker_reward_bond, bond_effect, unbond_effect, withdraw_effect,
}

abbrev pub Ledger : Type 0
Ledger = CanonicalAddr → ℕ

abbrev pub set : CanonicalAddr → ℕ → Ledger → Ledger
set account amount l = λ u. if account == u then amount else l u

-- What a message does to the ledger: tokens that arrive are credited to their sender, an unbonding
-- debits its sender, who must have the amount, and a withdrawal of rewards does nothing.
abbrev pub post : Deps → Env → HandleMsg → Ledger → Result Ledger
post d env (receive m) l = do
  account ← d.canonical_address m.cw20_sender
  ok (set account (l account + m.cw20_amount) l)
post d env (unbonds amount) l = do
  account ← d.canonical_address env.sender
  fail_if (ltb (l account) amount) (generic_err "Cannot unbond more than bond amount")
  ok (set account (l account - amount) l)
post d env withdraws l = ok l

abbrev pub view : Storage → Ledger
view s = λ u. (read_staker_info s u).bond_amount

stored_at :
    (s : Storage) (key : CanonicalAddr) (i : StakerInfo) (forget : Bool) (u : CanonicalAddr)
    → (forget ≡ true → i.bond_amount ≡ 0)
    → view (if forget then remove_staker_info key s else store_staker_info key i s) u
      ≡ set key i.bond_amount (view s) u
stored_at s key i true u empty = ground (arith, may_load-remove key u s.stakers, empty refl)
stored_at s key i false u empty = ground (arith, may_load-save key u i s.stakers)

-- The ledger after an account has been stored, or forgotten for having no bond.
view_stored :
    (s : Storage) (key : CanonicalAddr) (i : StakerInfo) (forget : Bool)
    → (forget ≡ true → i.bond_amount ≡ 0)
    → view (if forget then remove_staker_info key s else store_staker_info key i s)
      ≡ set key i.bond_amount (view s)
view_stored s key i forget empty = fun_ext (λ u. stored_at s key i forget u empty)

-- Setting an account to what it has changes nothing.
set_same : (l : Ledger) (key : CanonicalAddr) (n : ℕ) → n ≡ l key → set key n l ≡ l
set_same l key n e = fun_ext (λ u. at_u u)
  where
    at_u : (u : CanonicalAddr) → set key n l u ≡ l u
    at_u u = elim (ℕ_discrete key u) [
      | yes same ↦ ground (arith, e, ap l same)
      | no other ↦ ground arith
    ]

module _ {d : Deps} (laws : IsCosmwasm d) where
  bond-post :
      (s : Storage) (env : Env) (m : Cw20ReceiveMsg (Option Cw20HookMsg)) {s' : Storage}
      {r : HandleResponse}
      → bond d s env m.cw20_sender m.cw20_amount ≡ ok (s', r)
      → post d env (receive m) (view s) ≡ ok (view s')
  bond-post s env m h =
      let (
        key, known, config, _, state, stored, state', computed, info, rewarded, total, total_sum,
        bonded, bonded_sum, e,
      ) =
        bond_effect d s env m.cw20_sender m.cw20_amount h in
      let same = compute_staker_reward_bond d state' (read_staker_info s key) rewarded in
      let sum = add_value laws info.bond_amount m.cw20_amount bonded_sum in
      let seen =
        view_stored s key (record info { bond_amount = bonded }) false (λ no. ground arith) in
      let credited : view s key + m.cw20_amount ≡ bonded = omega (arith, same, sum) in
      rw (e, known) (ap ok (ap (λ n. set key n (view s)) credited ∙ sym seen))

  unbond-post :
      (s : Storage) (env : Env) (amount : ℕ) {s' : Storage} {r : HandleResponse}
      → unbond d s env amount ≡ ok (s', r)
      → post d env (unbonds amount) (view s) ≡ ok (view s')
  unbond-post s env amount h =
      let (
        key, known, config, _, state, stored, state', computed, info, rewarded, total, total_sum,
        bonded, bonded_sum, enough, e,
      ) =
        unbond_effect d s env amount h in
      let same = compute_staker_reward_bond d state' (read_staker_info s key) rewarded in
      let (_, left) = sub_value laws info.bond_amount amount bonded_sum in
      let seen =
        view_stored s key (record info { bond_amount = bonded })
          ((info.pending_reward == 0) && (bonded == 0)) (λ gone. ground arith) in
      let debited : view s key - amount ≡ bonded = omega (arith, same, left) in
      let allowed : ltb (view s key) amount ≡ false = ground (arith, enough) in
      rw (e, known, allowed) (ap ok (ap (λ n. set key n (view s)) debited ∙ sym seen))

  withdraw-post :
      (s : Storage) (env : Env) {s' : Storage} {r : HandleResponse}
      → withdraw d s env ≡ ok (s', r)
      → post d env withdraws (view s) ≡ ok (view s')
  withdraw-post s env h =
      let (key, _, config, _, state, stored, state', computed, info, rewarded, _, _, _, e) =
        withdraw_effect d s env h in
      let same = compute_staker_reward_bond d state' (read_staker_info s key) rewarded in
      let seen =
        view_stored s key (record info { pending_reward = 0 }) (info.bond_amount == 0)
          (λ gone. ground arith) in
      rw e (ap ok (sym (seen ∙ set_same (view s) key info.bond_amount same)))

  receive_bonds :
      (s : Storage) (env : Env) (m : Cw20ReceiveMsg (Option Cw20HookMsg)) {s' : Storage}
      {r : HandleResponse}
      → receive_cw20 d s env m ≡ ok (s', r)
      → bond d s env m.cw20_sender m.cw20_amount ≡ ok (s', r)
  unfolding receive_cw20 run_hook
  receive_bonds s env m h = ground arith

  -- The contract refines the ledger: a message that succeeds does to the bonds, seen without the
  -- rewards, the order of the store and the forgotten stakers, exactly what the ledger's own
  -- operation does, which then succeeds too.
  pub post-view :
      (s : Storage) (env : Env) (m : HandleMsg) {s' : Storage} {r : HandleResponse}
      → handle d s env m ≡ ok (s', r)
      → post d env m (view s) ≡ ok (view s')
  unfolding handle
  post-view s env (receive m) h = bond-post s env m (receive_bonds s env m h)
  post-view s env (unbonds amount) h = unbond-post s env amount h
  post-view s env withdraws h = withdraw-post s env h
