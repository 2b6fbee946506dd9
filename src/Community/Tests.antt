-- ===== src/Community/Tests.antt =====
-- The community fund at concrete inputs.
use anchor_token_contracts.Base.{◌≡◌, refl, some, Result, ok, err, []}
use anchor_token_contracts.Cosmwasm.{Deps, HandleResponse, example_deps, env_at}
use anchor_token_contracts.Community.Contract.{Config, Storage, spends, spend, handle}
use anchor_token_contracts.Community.Fund.{Effect, governed}

abbrev deps : Deps
deps = example_deps 0

abbrev config : Config
config = record { gov_contract = 2; anchor_token = 1; spend_limit = 100 }

abbrev spending : Result (Storage × HandleResponse)
spending = handle deps (some config) (env_at "gov" 1 0) (spends "alice" 60)

abbrev response : HandleResponse
response = elim spending [ ok x ↦ x.1 | err e ↦ record { messages = []; log = [] } ]

spending_runs : spending ≡ ok (some config, response)
unfolding handle spend
spending_runs = refl

governed_example :
    (c : Config) × (◌≡◌ {A = Storage} (some config) (some c))
    × (deps.canonical_address "gov" ≡ ok c.gov_contract)
    × (c' : Config) × (◌≡◌ {A = Storage} (some config) (some c'))
    × Effect deps c (spends "alice" 60) c' response
governed_example =
    governed deps (some config) (some config) (env_at "gov" 1 0) (spends "alice" 60) spending_runs
