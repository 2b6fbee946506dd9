-- ===== src/Distributor/Removal.antt =====
-- An account that has been removed from the whitelist.
use anchor_token_contracts.Base.{ℕ, ◌≡◌, ◌≢◌, false, some, ok, arith, ℕ_discrete}
use anchor_token_contracts.Cosmwasm.{Deps, Env, HandleResponse, HumanAddr, CanonicalAddr}
use anchor_token_contracts.Distributor.Contract.{
  Config, Storage, HandleMsg, update, spends, adds, removes, is_listed, remove_distributor, spend,
  handle,
}
use anchor_token_contracts.Distributor.Whitelist.{handle-Does, remove-Does}

-- The message does not add the account.
abbrev pub AddsOther : Deps → CanonicalAddr → HandleMsg → Type 0
AddsOther d key (adds distributor) = d.canonical_address distributor ≢ ok key
AddsOther d key (update spend_limit) = Unit
AddsOther d key (removes distributor) = Unit
AddsOther d key (spends recipient amount) = Unit

-- Messages that succeed and do not add the account.
pub data Without (d : Deps) (key : CanonicalAddr) (c : Config) : Config → Type 0 where
  none_yet : Without d key c c
  and_then :
      {e e' : Config}
      → Without d key c e
      → (env : Env) (m : HandleMsg) (r : HandleResponse) → AddsOther d key m
      → handle d (some e) env m ≡ ok (some e', r)
      → Without d key c e'

module _ (d : Deps) where
  unlisted_by :
      (key : CanonicalAddr) (c c' : Config) (env : Env) (m : HandleMsg) {r : HandleResponse}
      → AddsOther d key m
      → handle d (some c) env m ≡ ok (some c', r)
      → is_listed key c.whitelist ≡ false
      → is_listed key c'.whitelist ≡ false
  unlisted_by key c c' env (update spend_limit) other h out =
      let (_, e, _) = handle-Does d c c' env (update spend_limit) h in rw e out
  unlisted_by key c c' env (adds distributor) other h out =
      let (_, added, named, _, _, lists, _) = handle-Does d c c' env (adds distributor) h in
      elim (ℕ_discrete added key) [
        | yes same ↦ absurd (other (ground (arith, named, same)))
        | no ne ↦ ground (arith, lists key, out, ne)
      ]
  unlisted_by key c c' env (removes distributor) other h out =
      let (_, gone, _, _, _, lists, _) = handle-Does d c c' env (removes distributor) h in
      ground (arith, lists key, out)
  unlisted_by key c c' env (spends recipient amount) other h out =
      let (_, _, _, _, e, _, _, _) = handle-Does d c c' env (spends recipient amount) h in rw e out

  Without-is_listed :
      (key : CanonicalAddr) {c e : Config}
      → is_listed key c.whitelist ≡ false
      → Without d key c e
      → is_listed key e.whitelist ≡ false
  Without-is_listed key out none_yet = out
  Without-is_listed key out (and_then {e} {e'} run env m r other h) =
      unlisted_by key e e' env m other h (Without-is_listed key out run)

  -- After a removal that succeeds, and whatever messages succeed after it that do not add the
  -- account again, an account whose address has the same canonical form as the removed one cannot
  -- spend, whatever the recipient and the amount.
  pub removed_cannot_spend :
      (c c' e : Config) (env later : Env) (distributor recipient : HumanAddr) (amount : ℕ)
      (key : CanonicalAddr) (r r' : HandleResponse) (s' : Storage)
      → remove_distributor d (some c) env distributor ≡ ok (some c', r)
      → d.canonical_address distributor ≡ ok key
      → Without d key c' e
      → d.canonical_address later.sender ≡ ok key
      → spend d (some e) later recipient amount ≢ ok (s', r')
  unfolding spend
  removed_cannot_spend c c' e env later distributor recipient amount key r r' s' h named run same
        again =
      let (_, removed, named', _, _, lists, _) = remove-Does d c c' env distributor h in
      let gone : is_listed key c'.whitelist ≡ false = ground (arith, lists key, named, named') in
      let out = Without-is_listed key gone run in ground (arith, out, same)
