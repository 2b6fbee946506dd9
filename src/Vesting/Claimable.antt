-- ===== src/Vesting/Claimable.antt =====
-- A claim goes through.
use anchor_token_contracts.Base.{
  ℕ, ◌≤◌, ◌<◌, ◌≡◌, refl, some, List, [], ◌∷◌, ok, arith, u128_mod, ap, ◌∙◌, ◌>>=◌, All, ℕ_discrete,
}
use anchor_token_contracts.Base.Buckets.{may_load}
use anchor_token_contracts.Cosmwasm.{
  Deps, IsCosmwasm, Env, HandleResponse, HumanAddr, CosmosMsg, paid_in, transfer, text, num,
}
use mathlib.Core.Path.{fun_ext}
use anchor_token_contracts.Linear.{amount_of}
use anchor_token_contracts.Linear.Returns.{IsProper, IsSmall, round, rounds, rounds_returns}
use anchor_token_contracts.Vesting.Types.{
  Schedule, VestingInfo, Config, Storage, store_vesting_info,
}
use anchor_token_contracts.Vesting.Claims.{add_release, add_releases, compute_claim_amount}
use anchor_token_contracts.Vesting.Contract.{claim, claim_messages}

module _ (d : Deps) (laws : IsCosmwasm d) where
  add_releases-rounds :
      (now last claimable : ℕ) (l : List Schedule)
      → add_releases d now last claimable l ≡ rounds d now last claimable l
  unfolding add_releases add_release
  add_releases-rounds now last claimable [] = refl
  add_releases-rounds now last claimable ((start, end, amount) ∷ l) =
      ap (λ f. round d now last claimable (start, end, amount) >>= f)
        (fun_ext (λ next. add_releases-rounds now last next l))

  claim_messages_returns :
      (config : Config) (to token : HumanAddr) (amount : ℕ)
      → d.human_address config.anchor_token ≡ ok token
      → (l : List CosmosMsg) × (claim_messages d config to amount ≡ ok l) × (paid_in l ≡ amount)
  unfolding claim_messages
  claim_messages_returns config to token amount named = elim (ℕ_discrete amount 0) [
    | yes zero ↦ ([], ground arith, ground arith)
    | no some_amount ↦ (
      record { contract_addr = token; msg = transfer to amount; coins = [] } ∷ [],
      ground arith,
      ground arith,
    )
  ]

  -- A registered account can always claim: if its last claim is not in the future, each schedule
  -- begins before it ends, each amount in units of 10⁻¹⁸ and the sum of the amounts fit 128 bits,
  -- and the token's address can be translated, the claim succeeds, pays what
  -- `compute_claim_amount` computes, and moves the account's last claim time to now.
  pub claim_returns :
      (s : Storage) (env : Env) (key : ℕ) (config : Config) (info : VestingInfo) (token : HumanAddr)
      → d.canonical_address env.sender ≡ ok key
      → s.config ≡ some config
      → may_load key s.vesting_infos ≡ some info
      → d.human_address config.anchor_token ≡ ok token
      → info.last_claim_time ≤ env.block_time
      → All IsProper info.schedules
      → All IsSmall info.schedules
      → amount_of info.schedules < u128_mod
      → (r : HandleResponse) × (claim d s env
          ≡ ok (store_vesting_info key (record info { last_claim_time = env.block_time }) s, r))
        × (compute_claim_amount d env.block_time info ≡ ok (paid_in r.messages))
  unfolding claim compute_claim_amount
  claim_returns s env key config info token k conf found named le proper small fits =
      let (c, returned, _) =
        rounds_returns d laws env.block_time info.last_claim_time 0 info.schedules le proper small
          (omega (arith, fits)) in
      let computed =
        add_releases-rounds env.block_time info.last_claim_time 0 info.schedules ∙ returned in
      let (messages, sent, paid) = claim_messages_returns config env.sender token c named in
      (
        record {
          messages = messages;
          log =
              ("action", text "claim")
              ∷ ("address", text env.sender)
              ∷ ("claim_amount", num c)
              ∷ ("last_claim_time", num env.block_time)
              ∷ [];
        },
        simp (k, conf, found, computed, sent),
        rw (paid, computed) refl,
      )
