-- ===== src/Collector/Contract.antt =====
-- contracts/collector/src/contract.rs and state.rs. The queries of the terraswap crate, and its
-- deduction of the native tax, are a parameter.
use package.text.Mathlib.Text.{◌==◌ as str_eq}
use anchor_token_contracts.Base.{
  ℕ, String, not, Option, some, List, [], ◌∷◌, ◌++◌, Result, ok, unauthorized, not_found, ◌>>=◌,
  ◌>>◌, ◌==◌, ◌!=◌, if◌then◌else◌, fail_if, ok_or, unwrap_or,
}
use anchor_token_contracts.Cosmwasm.{
  CanonicalAddr, HumanAddr, Deps, Env, HandleResponse, CosmosMsg, transfer, swap, distribute, text,
  num, coin,
}

pub record Terraswap : Type 0 where
  -- The pair contract of a native coin and a token.
  pub query_pair : HumanAddr → String → HumanAddr → Result HumanAddr
  pub query_balance : HumanAddr → String → Result ℕ
  pub query_token_balance : HumanAddr → HumanAddr → Result ℕ
  pub deduct_tax : String → ℕ → Result ℕ

pub record Config : Type 0 where
  pub gov_contract : CanonicalAddr
  pub terraswap_factory : CanonicalAddr
  pub anchor_token : CanonicalAddr
  pub distributor_contract : CanonicalAddr
  pub reward_factor : ℕ

-- The storage is the one singleton.
abbrev pub Storage : Type 0
Storage = Option Config

abbrev pub read_config : Storage → Result Config
read_config s = ok_or s not_found

pub data HandleMsg : Type 0 where
  update : Option ℕ → HandleMsg
  sweeps : String → HandleMsg
  distributes : HandleMsg

pub record ConfigResponse : Type 0 where
  pub gov_contract : HumanAddr
  pub terraswap_factory : HumanAddr
  pub anchor_token : HumanAddr
  pub distributor_contract : HumanAddr
  pub reward_factor : ℕ

module _ (d : Deps) where
  unfoldable pub init : HumanAddr → HumanAddr → HumanAddr → HumanAddr → ℕ → Result Storage
  init gov_contract terraswap_factory anchor_token distributor_contract reward_factor = do
    gov_raw ← d.canonical_address gov_contract
    factory_raw ← d.canonical_address terraswap_factory
    token_raw ← d.canonical_address anchor_token
    distributor_raw ← d.canonical_address distributor_contract
    ok (
        some (record {
          gov_contract = gov_raw;
          terraswap_factory = factory_raw;
          anchor_token = token_raw;
          distributor_contract = distributor_raw;
          reward_factor = reward_factor;
        }))

  unfoldable pub update_config : Storage → Env → Option ℕ → Result (Storage × HandleResponse)
  update_config s env reward_factor = do
    config ← read_config s
    sender ← d.canonical_address env.sender
    fail_if (sender != config.gov_contract) unauthorized
    ok (
      some (record config { reward_factor = unwrap_or reward_factor config.reward_factor }),
      record { messages = []; log = [] },
    )

  -- A transfer of a part of the rewards, unless it is zero.
  unfoldable pub pay_part : Config → CanonicalAddr → ℕ → Result (List CosmosMsg)
  pay_part config recipient amount = if amount == 0 then ok [] else (do
    token ← d.human_address config.anchor_token
    recipient_human ← d.human_address recipient
    ok (record { contract_addr = token; msg = transfer recipient_human amount; coins = [] } ∷ []))

  unfoldable pub query_config : Storage → Result ConfigResponse
  query_config s = do
    config ← read_config s
    gov_contract ← d.human_address config.gov_contract
    terraswap_factory ← d.human_address config.terraswap_factory
    anchor_token ← d.human_address config.anchor_token
    distributor_contract ← d.human_address config.distributor_contract
    ok (record {
      gov_contract = gov_contract;
      terraswap_factory = terraswap_factory;
      anchor_token = anchor_token;
      distributor_contract = distributor_contract;
      reward_factor = config.reward_factor;
    })

  module _ (t : Terraswap) where
    unfoldable pub sweep : Storage → Env → String → Result (Storage × HandleResponse)
    sweep s env denom = do
      config ← read_config s
      anchor_token ← d.human_address config.anchor_token
      factory ← d.human_address config.terraswap_factory
      pair ← t.query_pair factory denom anchor_token
      balance ← t.query_balance env.contract_address denom
      amount ← t.deduct_tax denom balance
      ok (
        s,
        record {
          messages =
              record { contract_addr = pair; msg = swap denom amount; coins = (denom, amount) ∷ [] }
              ∷ record { contract_addr = env.contract_address; msg = distribute; coins = [] }
              ∷ [];
          log = ("action", text "sweep") ∷ ("collected_rewards", coin amount denom) ∷ [];
        },
      )

    unfoldable pub distribute_rewards : Storage → Env → Result (Storage × HandleResponse)
    distribute_rewards s env = do
      fail_if (not (str_eq env.sender env.contract_address)) unauthorized
      config ← read_config s
      token ← d.human_address config.anchor_token
      amount ← t.query_token_balance token env.contract_address
      distribute_amount ← d.uint_mul amount config.reward_factor
      left_amount ← d.uint_sub amount distribute_amount
      to_gov ← pay_part config config.gov_contract distribute_amount
      to_distributor ← pay_part config config.distributor_contract left_amount
      ok (
        s,
        record {
          messages = to_gov ++ to_distributor;
          log =
              ("action", text "distribute")
              ∷ ("distribute_amount", num distribute_amount)
              ∷ ("distributor_payback_amount", num left_amount)
              ∷ [];
        },
      )

    unfoldable pub handle : Storage → Env → HandleMsg → Result (Storage × HandleResponse)
    handle s env (update reward_factor) = update_config s env reward_factor
    handle s env (sweeps denom) = sweep s env denom
    handle s env distributes = distribute_rewards s env
