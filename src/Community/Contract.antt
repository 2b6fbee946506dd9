-- ===== src/Community/Contract.antt =====
-- contracts/community/src/contract.rs and state.rs.
use anchor_token_contracts.Base.{
  ℕ, Option, some, [], ◌∷◌, Result, ok, generic_err, unauthorized, not_found, ◌>>=◌, ◌>>◌, ◌!=◌,
  ltb, fail_if, ok_or, unwrap_or,
}
use anchor_token_contracts.Cosmwasm.{
  CanonicalAddr, HumanAddr, Deps, Env, HandleResponse, transfer, text, num,
}

pub record Config : Type 0 where
  pub gov_contract : CanonicalAddr
  pub anchor_token : CanonicalAddr
  pub spend_limit : ℕ

-- The storage is the one singleton.
abbrev pub Storage : Type 0
Storage = Option Config

abbrev pub read_config : Storage → Result Config
read_config s = ok_or s not_found

pub data HandleMsg : Type 0 where
  update : Option ℕ → HandleMsg
  spends : HumanAddr → ℕ → HandleMsg

pub record ConfigResponse : Type 0 where
  pub gov_contract : HumanAddr
  pub anchor_token : HumanAddr
  pub spend_limit : ℕ

module _ (d : Deps) where
  unfoldable pub init : HumanAddr → HumanAddr → ℕ → Result Storage
  init gov_contract anchor_token spend_limit = do
    gov_raw ← d.canonical_address gov_contract
    token_raw ← d.canonical_address anchor_token
    ok (
        some
          (record { gov_contract = gov_raw; anchor_token = token_raw; spend_limit = spend_limit }))

  unfoldable pub update_config : Storage → Env → Option ℕ → Result (Storage × HandleResponse)
  update_config s env spend_limit = do
    config ← read_config s
    sender ← d.canonical_address env.sender
    fail_if (config.gov_contract != sender) unauthorized
    ok (
      some (record config { spend_limit = unwrap_or spend_limit config.spend_limit }),
      record { messages = []; log = ("action", text "update_config") ∷ [] },
    )

  unfoldable pub spend : Storage → Env → HumanAddr → ℕ → Result (Storage × HandleResponse)
  spend s env recipient amount = do
    config ← read_config s
    sender ← d.canonical_address env.sender
    fail_if (config.gov_contract != sender) unauthorized
    fail_if (ltb config.spend_limit amount) (generic_err "Cannot spend more than spend_limit")
    token ← d.human_address config.anchor_token
    ok (
      s,
      record {
        messages =
            record { contract_addr = token; msg = transfer recipient amount; coins = [] } ∷ [];
        log =
            ("action", text "spend") ∷ ("recipient", text recipient) ∷ ("amount", num amount) ∷ [];
      },
    )

  unfoldable pub handle : Storage → Env → HandleMsg → Result (Storage × HandleResponse)
  handle s env (update spend_limit) = update_config s env spend_limit
  handle s env (spends recipient amount) = spend s env recipient amount

  unfoldable pub query_config : Storage → Result ConfigResponse
  query_config s = do
    config ← read_config s
    gov_contract ← d.human_address config.gov_contract
    anchor_token ← d.human_address config.anchor_token
    ok (record {
      gov_contract = gov_contract;
      anchor_token = anchor_token;
      spend_limit = config.spend_limit;
    })
