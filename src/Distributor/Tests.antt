-- ===== src/Distributor/Tests.antt =====
-- The distributor on small configurations: runs, and the theorems at concrete inputs.
use anchor_token_contracts.Base.{◌≡◌, ◌≢◌, arith, refl, some, Result, ok, err, [], ◌∷◌}
use anchor_token_contracts.Cosmwasm.{Deps, HandleResponse, example_deps, env_at}
use anchor_token_contracts.Distributor.Contract.{
  Config, Storage, adds, is_listed, unlist, assert_gov, add_distributor, remove_distributor, handle,
  spend,
}
use anchor_token_contracts.Distributor.Removal.{none_yet, and_then, removed_cannot_spend}
use anchor_token_contracts.Distributor.Whitelist.{Does, handle-Does}

abbrev deps : Deps
deps = example_deps 0

abbrev config : Config
config = record { gov_contract = 2; anchor_token = 1; whitelist = 3 ∷ 5 ∷ []; spend_limit = 100 }

abbrev response_of : Result (Storage × HandleResponse) → HandleResponse
response_of (ok (s, r)) = r
response_of (err e) = record { messages = []; log = [] }

-- The governance contract adds Bob, and removes Alice.
abbrev adding : Result (Storage × HandleResponse)
adding = handle deps (some config) (env_at "gov" 1 0) (adds "bob")

adding_runs : adding ≡ ok (some (record config { whitelist = 3 ∷ 5 ∷ 4 ∷ [] }), response_of adding)
unfolding handle add_distributor assert_gov is_listed
adding_runs = refl

handle-Does_example :
    Does deps config
      (env_at "gov" 1 0)
      (adds "bob")
      (record config { whitelist = 3 ∷ 5 ∷ 4 ∷ [] })
      (response_of adding)
handle-Does_example =
    handle-Does deps config (record config { whitelist = 3 ∷ 5 ∷ 4 ∷ [] }) (env_at "gov" 1 0)
      (adds "bob") adding_runs

abbrev removing : Result (Storage × HandleResponse)
removing = remove_distributor deps (some config) (env_at "gov" 1 0) "alice"

removing_runs : removing ≡ ok (some (record config { whitelist = 5 ∷ [] }), response_of removing)
unfolding remove_distributor assert_gov unlist
removing_runs = refl

-- Bob is added after Alice was removed.
abbrev later : Result (Storage × HandleResponse)
later = handle deps (some (record config { whitelist = 5 ∷ [] })) (env_at "gov" 2 0) (adds "bob")

later_runs : later ≡ ok (some (record config { whitelist = 5 ∷ 4 ∷ [] }), response_of later)
unfolding handle add_distributor assert_gov is_listed
later_runs = refl

removed_cannot_spend_example :
    spend deps (some (record config { whitelist = 5 ∷ 4 ∷ [] })) (env_at "alice" 3 0) "bob" 10
    ≢ ok (some config, response_of removing)
removed_cannot_spend_example =
    removed_cannot_spend deps config (record config { whitelist = 5 ∷ [] })
      (record config { whitelist = 5 ∷ 4 ∷ [] }) (env_at "gov" 1 0) (env_at "alice" 3 0) "alice"
      "bob" 10 3 (response_of removing) (response_of removing) (some config) removing_runs refl
      (and_then none_yet (env_at "gov" 2 0) (adds "bob") (response_of later) (λ e. ground arith)
        later_runs)
      refl
