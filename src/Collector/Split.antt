-- ===== src/Collector/Split.antt =====
-- How `distribute` splits the balance.
use native.Mathlib.Nat.{div-le_of_le-mul, mul-le-mul_left}
use package.text.Mathlib.Text.{◌==◌ as str_eq}
use anchor_token_contracts.Base.{
  ℕ, ◌-◌, ◌*◌, ◌/◌, ◌≤◌, ◌<◌, ◌≡◌, ◌⊎◌, refl, true, some, List, [], ◌∷◌, ◌++◌, ok, arith, u128_mod,
  ℕ_discrete,
}
use anchor_token_contracts.Cosmwasm.{
  Deps, IsCosmwasm, Env, HandleResponse, HumanAddr, CanonicalAddr, CosmosMsg, paid_in, transfer,
  decimal_one, text, num,
}
use anchor_token_contracts.Collector.Contract.{Config, Terraswap, pay_part, distribute_rewards}

-- A part that is zero is not sent, another is sent in one transfer.
abbrev pub IsPart : Deps → HumanAddr → CanonicalAddr → ℕ → List CosmosMsg → Type 0
IsPart d token recipient amount l =
    (paid_in l ≡ amount)
    × (((amount ≡ 0) × (l ≡ []))
        ⊎ ((human : HumanAddr) × (d.human_address recipient ≡ ok human)
            × (l ≡ record { contract_addr = token; msg = transfer human amount; coins = [] } ∷ [])))

abbrev pub Splits : Deps → Terraswap → Config → Env → HandleResponse → Type 0
Splits d t c env r =
    (token : HumanAddr) × (d.human_address c.anchor_token ≡ ok token)
    × (balance : ℕ) × (t.query_token_balance token env.contract_address ≡ ok balance)
    × (to_gov : List CosmosMsg) × (to_distributor : List CosmosMsg) × (r.messages
        ≡ to_gov ++ to_distributor)
    × IsPart d token c.gov_contract (balance * c.reward_factor / decimal_one) to_gov
    × IsPart d token c.distributor_contract (balance - balance * c.reward_factor / decimal_one)
        to_distributor
    × (paid_in r.messages ≡ balance)

abbrev shares : ℕ → ℕ → List CosmosMsg → HandleResponse
shares part left messages = record {
  messages = messages;
  log =
      ("action", text "distribute")
      ∷ ("distribute_amount", num part)
      ∷ ("distributor_payback_amount", num left)
      ∷ [];
}

module _ (d : Deps) where
  part_fits : (balance factor : ℕ) → factor ≤ decimal_one → balance * factor / decimal_one ≤ balance
  part_fits balance factor h =
      div-le_of_le-mul decimal_one (omega (arith, mul-le-mul_left balance h))

  pay_part_returns :
      (c : Config) (token human : HumanAddr) (recipient amount : ℕ)
      → d.human_address c.anchor_token ≡ ok token
      → d.human_address recipient ≡ ok human
      → (l : List CosmosMsg) × (pay_part d c recipient amount ≡ ok l)
  unfolding pay_part
  pay_part_returns c token human recipient amount named known = elim (ℕ_discrete amount 0) [
    | yes zero ↦ ([], ground arith)
    | no some_left ↦ (
      record { contract_addr = token; msg = transfer human amount; coins = [] } ∷ [],
      ground arith,
    )
  ]

  -- A distribution that the contract itself sends succeeds if the reward factor is at most one,
  -- the balance, in units of 10⁻¹⁸, fits 128 bits, and the addresses can be translated.
  pub distribute_returns :
      (laws : IsCosmwasm d) (t : Terraswap) (c : Config) (env : Env) (balance : ℕ)
      (token gov distributor : HumanAddr)
      → str_eq env.sender env.contract_address ≡ true
      → c.reward_factor ≤ decimal_one
      → balance * decimal_one < u128_mod
      → d.human_address c.anchor_token ≡ ok token
      → d.human_address c.gov_contract ≡ ok gov
      → d.human_address c.distributor_contract ≡ ok distributor
      → t.query_token_balance token env.contract_address ≡ ok balance
      → (r : HandleResponse) × (distribute_rewards d t (some c) env ≡ ok (some c, r))
  unfolding distribute_rewards
  distribute_returns laws t c env balance token gov distributor self small fits named known known'
        read =
      let bound : balance * c.reward_factor ≤ balance * decimal_one =
        mul-le-mul_left balance small in
      let part = balance * c.reward_factor / decimal_one in
      let mul = laws.mul_fits balance c.reward_factor (omega (arith, bound)) in
      let sub = laws.sub_fits balance part (part_fits balance c.reward_factor small) in
      let (to_gov, paid) = pay_part_returns c token gov c.gov_contract part named known in
      let (to_distributor, paid') =
        pay_part_returns c token distributor c.distributor_contract (balance - part) named known' in
      (
        shares part (balance - part) (to_gov ++ to_distributor),
        rw (self, named, read, mul, sub, paid, paid') refl,
      )
