-- ===== src/Community/Fund.antt =====
-- What every message does to the community fund.
use anchor_token_contracts.Base.{◌≤◌, ◌≡◌, some, [], ◌∷◌, ok, arith, unwrap_or}
use anchor_token_contracts.Cosmwasm.{Deps, Env, HandleResponse, HumanAddr, transfer}
use anchor_token_contracts.Community.Contract.{
  Config, Storage, HandleMsg, update, spends, update_config, spend, handle,
}

-- A new limit, or one transfer of at most the limit.
abbrev pub Effect : Deps → Config → HandleMsg → Config → HandleResponse → Type 0
Effect d c (update spend_limit) c' r =
    (c' ≡ record c { spend_limit = unwrap_or spend_limit c.spend_limit }) × (r.messages ≡ [])
Effect d c (spends recipient amount) c' r =
    (amount ≤ c.spend_limit)
    × (c' ≡ c)
    × (token : HumanAddr) × (d.human_address c.anchor_token ≡ ok token)
    × (r.messages
        ≡ record { contract_addr = token; msg = transfer recipient amount; coins = [] } ∷ [])

module _ (d : Deps) where
  -- A message that succeeds was sent by the governance contract. It sets the spend limit and sends
  -- nothing, or it sends one transfer of at most the limit to the recipient and changes nothing of
  -- the configuration.
  pub governed :
      (s s' : Storage) (env : Env) (m : HandleMsg) {r : HandleResponse}
      → handle d s env m ≡ ok (s', r)
      → (c : Config) × (s ≡ some c)
        × (d.canonical_address env.sender ≡ ok c.gov_contract)
        × (c' : Config) × (s' ≡ some c')
        × Effect d c m c' r
  unfolding handle update_config spend
  governed s s' env (update spend_limit) h = ground arith
  governed s s' env (spends recipient amount) h = ground arith
