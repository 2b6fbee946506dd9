-- ===== src/Distributor/Contract.antt =====
-- contracts/distributor/src/contract.rs and state.rs.
use anchor_token_contracts.Base.{
  ℕ, Bool, true, false, not, Option, some, List, [], ◌∷◌, ◌++◌, Result, ok, generic_err,
  unauthorized, not_found, ◌>>=◌, ◌>>◌, ◌==◌, ◌!=◌, ltb, if◌then◌else◌, fail_if, ok_or, unwrap_or,
  collect, keep_if, length,
}
use anchor_token_contracts.Cosmwasm.{
  CanonicalAddr, HumanAddr, Deps, Env, HandleResponse, transfer, text, num,
}

pub record Config : Type 0 where
  pub gov_contract : CanonicalAddr
  pub anchor_token : CanonicalAddr
  pub whitelist : List CanonicalAddr
  pub spend_limit : ℕ

-- The storage is the one singleton.
abbrev pub Storage : Type 0
Storage = Option Config

abbrev pub read_config : Storage → Result Config
read_config s = ok_or s not_found

pub data HandleMsg : Type 0 where
  update : Option ℕ → HandleMsg
  spends : HumanAddr → ℕ → HandleMsg
  adds removes : HumanAddr → HandleMsg

-- `into_iter().find(|w| *w == address).is_some()`
unfoldable pub is_listed : CanonicalAddr → List CanonicalAddr → Bool
is_listed address [] = false
is_listed address (w ∷ ws) = let rest = is_listed address ws in if w == address then true else rest

-- `into_iter().filter(|w| *w != address)`
unfoldable pub unlist : CanonicalAddr → List CanonicalAddr → List CanonicalAddr
unlist address = keep_if (λ w. w != address)

pub record ConfigResponse : Type 0 where
  pub gov_contract : HumanAddr
  pub anchor_token : HumanAddr
  pub whitelist : List HumanAddr
  pub spend_limit : ℕ

module _ (d : Deps) where
  unfoldable pub init : HumanAddr → HumanAddr → List HumanAddr → ℕ → Result Storage
  init gov_contract anchor_token whitelist spend_limit = do
    whitelist_raw ← collect d.canonical_address whitelist
    gov_raw ← d.canonical_address gov_contract
    token_raw ← d.canonical_address anchor_token
    ok (
        some (record {
          gov_contract = gov_raw;
          anchor_token = token_raw;
          whitelist = whitelist_raw;
          spend_limit = spend_limit;
        }))

  -- The check that opens the three messages of the governance contract.
  unfoldable pub assert_gov : Storage → Env → Result Config
  assert_gov s env = do
    config ← read_config s
    sender ← d.canonical_address env.sender
    fail_if (config.gov_contract != sender) unauthorized
    ok config

  unfoldable pub update_config : Storage → Env → Option ℕ → Result (Storage × HandleResponse)
  unfolding assert_gov
  update_config s env spend_limit = do
    config ← assert_gov s env
    ok (
      some (record config { spend_limit = unwrap_or spend_limit config.spend_limit }),
      record { messages = []; log = ("action", text "update_config") ∷ [] },
    )

  unfoldable pub add_distributor : Storage → Env → HumanAddr → Result (Storage × HandleResponse)
  unfolding assert_gov
  add_distributor s env distributor = do
    config ← assert_gov s env
    distributor_raw ← d.canonical_address distributor
    fail_if (is_listed distributor_raw config.whitelist)
        (generic_err "Distributor already registered")
    ok (
      some (record config { whitelist = config.whitelist ++ distributor_raw ∷ [] }),
      record {
        messages = [];
        log = ("action", text "add_distributor") ∷ ("distributor", text distributor) ∷ [];
      },
    )

  unfoldable pub remove_distributor : Storage → Env → HumanAddr → Result (Storage × HandleResponse)
  unfolding assert_gov
  remove_distributor s env distributor = do
    config ← assert_gov s env
    distributor_raw ← d.canonical_address distributor
    let whitelist = unlist distributor_raw config.whitelist
    fail_if (length config.whitelist == length whitelist) (generic_err "Distributor not found")
    ok (
      some (record config { whitelist = whitelist }),
      record {
        messages = [];
        log = ("action", text "remove_distributor") ∷ ("distributor", num distributor_raw) ∷ [];
      },
    )

  unfoldable pub spend : Storage → Env → HumanAddr → ℕ → Result (Storage × HandleResponse)
  spend s env recipient amount = do
    config ← read_config s
    sender ← d.canonical_address env.sender
    fail_if (not (is_listed sender config.whitelist)) unauthorized
    fail_if (ltb config.spend_limit amount) (generic_err "Cannot spend more than spend_limit")
    token ← d.human_address config.anchor_token
    ok (
      s,
      record {
        messages =
            record { contract_addr = token; msg = transfer recipient amount; coins = [] } ∷ [];
        log =
            ("action", text "spend") ∷ ("recipient", text recipient) ∷ ("amount", num amount) ∷ [];
      },
    )

  unfoldable pub handle : Storage → Env → HandleMsg → Result (Storage × HandleResponse)
  handle s env (update spend_limit) = update_config s env spend_limit
  handle s env (spends recipient amount) = spend s env recipient amount
  handle s env (adds distributor) = add_distributor s env distributor
  handle s env (removes distributor) = remove_distributor s env distributor

  unfoldable pub query_config : Storage → Result ConfigResponse
  query_config s = do
    config ← read_config s
    gov_contract ← d.human_address config.gov_contract
    anchor_token ← d.human_address config.anchor_token
    whitelist ← collect d.human_address config.whitelist
    ok (record {
      gov_contract = gov_contract;
      anchor_token = anchor_token;
      whitelist = whitelist;
      spend_limit = config.spend_limit;
    })
