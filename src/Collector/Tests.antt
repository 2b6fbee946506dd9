-- ===== src/Collector/Tests.antt =====
-- The collector with a balance of 1001: runs, and the theorems at concrete inputs.
use text.Mathlib.Text.{◌==◌ as str_eq}
use anchor_token_contracts.Base.{◌*◌, ◌^◌, ◌≡◌, refl, some, Result, ok, err, arith, []}
use anchor_token_contracts.Cosmwasm.{
  Deps, HandleResponse, IsCosmwasm, example_deps, example_laws, env_at,
}
use anchor_token_contracts.Collector.Contract.{Config, Storage, Terraswap, distribute_rewards}
use anchor_token_contracts.Collector.Split.{distribute_returns}

abbrev deps : Deps
deps = example_deps 0

abbrev laws : IsCosmwasm deps
laws = example_laws 0

abbrev terraswap : Terraswap
terraswap = record {
  query_pair = λ _ _ _. ok "pair";
  query_balance = λ _ _. ok 7;
  query_token_balance = λ _ _. ok 1001;
  deduct_tax = λ _ n. ok n;
}

-- Nine tenths go to the governance contract.
abbrev config : Config
config = record {
  gov_contract = 2;
  terraswap_factory = 4;
  anchor_token = 1;
  distributor_contract = 5;
  reward_factor = 9 * 10 ^ 17;
}

abbrev distributing : Result (Storage × HandleResponse)
distributing = distribute_rewards deps terraswap (some config) (env_at "gov" 1 0)

abbrev response : HandleResponse
response = elim distributing [ ok x ↦ x.1 | err e ↦ record { messages = []; log = [] } ]

distribute_returns_example : (r : HandleResponse) × (distributing ≡ ok (some config, r))
distribute_returns_example =
    distribute_returns deps laws terraswap config (env_at "gov" 1 0) 1001 "anchor" "gov" "carol"
      refl (omega arith) (omega arith) refl refl refl refl
