-- ===== src/Distributor/Whitelist.antt =====
-- Who may spend, and what every message does to the whitelist.
use anchor_token_contracts.Base.{
  ℕ, ◌≤◌, ◌≡◌, ◌≢◌, refl, true, false, Option, some, List, [], ◌∷◌, ◌++◌, ok, arith, ◌==◌, ◌||◌,
  if◌then◌else◌, length, unwrap_or,
}
use anchor_token_contracts.Cosmwasm.{Deps, Env, HandleResponse, HumanAddr, CanonicalAddr, transfer}
use anchor_token_contracts.Distributor.Contract.{
  Config, HandleMsg, update, spends, adds, removes, is_listed, unlist, assert_gov, update_config,
  add_distributor, remove_distributor, spend, handle,
}

is_listed-append :
    (a b : CanonicalAddr) (l : List CanonicalAddr)
    → is_listed a (l ++ (b ∷ [])) ≡ (is_listed a l || (b == a))
unfolding is_listed
is_listed-append a b [] = ground arith
is_listed-append a b (x ∷ l) = ground (arith, is_listed-append a b l)

is_listed-unlist :
    (a b : CanonicalAddr) (l : List CanonicalAddr)
    → is_listed a (unlist b l) ≡ (if b == a then false else is_listed a l)
unfolding is_listed unlist
is_listed-unlist a b [] = ground arith
is_listed-unlist a b (x ∷ l) = ground (arith, is_listed-unlist a b l)

length-unlist : (b : CanonicalAddr) (l : List CanonicalAddr) → length (unlist b l) ≤ length l
unfolding unlist
length-unlist b [] = omega arith
length-unlist b (x ∷ l) = ground (arith, length-unlist b l)

-- Nothing is removed only if the address is not there.
unlist-absent :
    (b : CanonicalAddr) (l : List CanonicalAddr)
    → is_listed b l ≡ false
    → length l ≡ length (unlist b l)
unfolding unlist is_listed
unlist-absent b [] h = refl
unlist-absent b (x ∷ l) h = ground (arith, unlist-absent b l)

-- What a message does: only the governance contract changes the configuration, an address is
-- added that was missing or removed that was there and the rest of the configuration stays, and
-- only a listed account spends, at most the limit and in one transfer.
abbrev pub Does : Deps → Config → Env → HandleMsg → Config → HandleResponse → Type 0
Does d c env (update spend_limit) c' r =
    (d.canonical_address env.sender ≡ ok c.gov_contract)
    × (c' ≡ record c { spend_limit = unwrap_or spend_limit c.spend_limit })
    × (r.messages ≡ [])
Does d c env (adds distributor) c' r =
    (d.canonical_address env.sender ≡ ok c.gov_contract)
    × (key : CanonicalAddr) × (d.canonical_address distributor ≡ ok key)
    × (is_listed key c.whitelist ≡ false)
    × (c' ≡ record c { whitelist = c'.whitelist })
    × ((a : CanonicalAddr) → is_listed a c'.whitelist ≡ (is_listed a c.whitelist || (key == a)))
    × (r.messages ≡ [])
Does d c env (removes distributor) c' r =
    (d.canonical_address env.sender ≡ ok c.gov_contract)
    × (key : CanonicalAddr) × (d.canonical_address distributor ≡ ok key)
    × (is_listed key c.whitelist ≡ true)
    × (c' ≡ record c { whitelist = c'.whitelist })
    × ((a : CanonicalAddr)
        → is_listed a c'.whitelist ≡ (if key == a then false else is_listed a c.whitelist))
    × (r.messages ≡ [])
Does d c env (spends recipient amount) c' r =
    (key : CanonicalAddr) × (d.canonical_address env.sender ≡ ok key)
    × (is_listed key c.whitelist ≡ true)
    × (amount ≤ c.spend_limit)
    × (c' ≡ c)
    × (token : HumanAddr) × (d.human_address c.anchor_token ≡ ok token)
    × (r.messages
        ≡ record { contract_addr = token; msg = transfer recipient amount; coins = [] } ∷ [])

module _ (d : Deps) where
  update-Does :
      (c c' : Config) (env : Env) (spend_limit : Option ℕ) {r : HandleResponse}
      → update_config d (some c) env spend_limit ≡ ok (some c', r)
      → Does d c env (update spend_limit) c' r
  unfolding update_config assert_gov
  update-Does c c' env spend_limit h = ground arith

  spend-Does :
      (c c' : Config) (env : Env) (recipient : HumanAddr) (amount : ℕ) {r : HandleResponse}
      → spend d (some c) env recipient amount ≡ ok (some c', r)
      → Does d c env (spends recipient amount) c' r
  unfolding spend
  spend-Does c c' env recipient amount h = ground arith

  add_effect :
      (c c' : Config) (env : Env) (distributor : HumanAddr) {r : HandleResponse}
      → add_distributor d (some c) env distributor ≡ ok (some c', r)
      → (d.canonical_address env.sender ≡ ok c.gov_contract)
        × (key : CanonicalAddr) × (d.canonical_address distributor ≡ ok key)
        × (is_listed key c.whitelist ≡ false)
        × (c' ≡ record c { whitelist = c.whitelist ++ key ∷ [] })
        × (r.messages ≡ [])
  unfolding add_distributor assert_gov
  add_effect c c' env distributor h = ground arith

  add-Does :
      (c c' : Config) (env : Env) (distributor : HumanAddr) {r : HandleResponse}
      → add_distributor d (some c) env distributor ≡ ok (some c', r)
      → Does d c env (adds distributor) c' r
  add-Does c c' env distributor h =
      let (gov, key, named, missing, e, silent) = add_effect c c' env distributor h in
      (gov, key, named, missing, rw e refl, λ a. rw e (is_listed-append a key c.whitelist), silent)

  remove_effect :
      (c c' : Config) (env : Env) (distributor : HumanAddr) {r : HandleResponse}
      → remove_distributor d (some c) env distributor ≡ ok (some c', r)
      → (d.canonical_address env.sender ≡ ok c.gov_contract)
        × (key : CanonicalAddr) × (d.canonical_address distributor ≡ ok key)
        × (length c.whitelist ≢ length (unlist key c.whitelist))
        × (c' ≡ record c { whitelist = unlist key c.whitelist })
        × (r.messages ≡ [])
  unfolding remove_distributor assert_gov
  remove_effect c c' env distributor h = ground arith

  pub remove-Does :
      (c c' : Config) (env : Env) (distributor : HumanAddr) {r : HandleResponse}
      → remove_distributor d (some c) env distributor ≡ ok (some c', r)
      → Does d c env (removes distributor) c' r
  remove-Does c c' env distributor h =
      let (gov, key, named, shorter, e, silent) = remove_effect c c' env distributor h in
      (
        gov,
        key,
        named,
        ground (arith, shorter, unlist-absent key c.whitelist),
        rw e refl,
        λ a. rw e (is_listed-unlist a key c.whitelist),
        silent,
      )

  -- A message that succeeds does what its kind allows. Only the governance contract changes the
  -- spend limit or the whitelist; an address that is added was not listed and one that is removed
  -- was, no other address is listed or unlisted by it, and the rest of the configuration (the
  -- governance contract, the token, the limit) stays as it was; only a listed account spends, no more
  -- than the limit and in one transfer of the token to the recipient, and spending changes nothing
  -- of the configuration.
  pub handle-Does :
      (c c' : Config) (env : Env) (m : HandleMsg) {r : HandleResponse}
      → handle d (some c) env m ≡ ok (some c', r)
      → Does d c env m c' r
  unfolding handle
  handle-Does c c' env (update spend_limit) h = update-Does c c' env spend_limit h
  handle-Does c c' env (adds distributor) h = add-Does c c' env distributor h
  handle-Does c c' env (removes distributor) h = remove-Does c c' env distributor h
  handle-Does c c' env (spends recipient amount) h = spend-Does c c' env recipient amount h
