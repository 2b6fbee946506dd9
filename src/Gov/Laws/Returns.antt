-- ===== src/Gov/Laws/Returns.antt =====
-- When a withdrawal of an amount goes through.
use native.Mathlib.Nat.{zero-div, div-lt_iff_lt-mul}
use anchor_token_contracts.Base.{
  ℕ, ◌+◌, ◌-◌, ◌*◌, ◌/◌, ◌≤◌, ◌<◌, ◌≡◌, ◌≢◌, some, [], ◌∷◌, ok, arith, u128_mod, max, mul_u128,
  div_uint,
}
use anchor_token_contracts.Base.Buckets.{may_load}
use anchor_token_contracts.Cosmwasm.{
  Deps, IsCosmwasm, Env, HandleResponse, HumanAddr, CanonicalAddr, transfer, text, num,
}
use anchor_token_contracts.Gov.Types.{
  Storage, State, Config, TokenManager, contract_balance, store_state, store_bank,
}
use anchor_token_contracts.Gov.Staking.{
  withdraw_voting_tokens, compute_locked_balance, release_votes, largest_vote, share_to_withdraw,
  amount_to_withdraw, pay_out, send_tokens,
}

abbrev paid_storage : Storage → State → TokenManager → CanonicalAddr → ℕ → Storage
paid_storage s state manager key share =
    store_state (record state { total_share = state.total_share - share })
      (store_bank key (record manager { share = manager.share - share }) s)

abbrev pub withdrawal : HumanAddr → HumanAddr → ℕ → HandleResponse
withdrawal token recipient amount = record {
  messages = record { contract_addr = token; msg = transfer recipient amount; coins = [] } ∷ [];
  log = ("action", text "withdraw") ∷ ("recipient", text recipient) ∷ ("amount", num amount) ∷ [];
}

share_fits :
    (v total stake share : ℕ)
    → stake ≢ 0
    → 1 ≤ share
    → v * total < (share + 1) * stake
    → max (v * total / stake) 1 ≤ share
share_fits v total stake share pos owns fits =
    let below : v * total / stake < share + 1 = (div-lt_iff_lt-mul (omega arith)).1 fits in
    omega (arith, below)

no_vote_locks : (stake : ℕ) → stake ≢ 0 → div_uint 0 stake ≡ ok 0
no_vote_locks stake pos = ground (arith, zero-div stake)

module _ (d : Deps) (laws : IsCosmwasm d) where
  pay_out_returns :
      (s : Storage) (config : Config) (state : State) (manager : TokenManager) (key : CanonicalAddr)
      (share amount : ℕ) (token human : HumanAddr)
      → share ≤ manager.share
      → manager.share ≤ state.total_share
      → state.total_share < u128_mod
      → d.human_address config.anchor_token ≡ ok token
      → d.human_address key ≡ ok human
      → pay_out d s config state manager key 0 share amount
        ≡ ok (paid_storage s state manager key share, withdrawal token human amount)
  unfolding pay_out send_tokens
  pay_out_returns s config state manager key share amount token human owns part small named known =
      ground arith

  -- An account without votes that holds at least one share can withdraw any amount that is worth
  -- less than one share more than it holds: the withdrawal succeeds and pays exactly that amount.
  -- The products fit 128 bits, the addresses can be translated, and there is some stake. The
  -- amount may exceed the whole stake, and is then paid out of the deposits of the polls.
  pub withdraw_returns :
      (s : Storage) (env : Env) (v share key balance : ℕ) (config : Config) (state : State)
      (token human : HumanAddr)
      → d.canonical_address env.sender ≡ ok key
      → may_load key s.bank ≡ some (record { share = share; locked_balance = [] })
      → s.config ≡ some config
      → s.state ≡ some state
      → contract_balance d config state ≡ ok balance
      → d.human_address config.anchor_token ≡ ok token
      → d.human_address key ≡ ok human
      → state.total_deposit < balance
      → 1 ≤ share
      → share ≤ state.total_share
      → state.total_share < u128_mod
      → v * state.total_share < u128_mod
      → v * state.total_share < (share + 1) * (balance - state.total_deposit)
      → (s' : Storage) × (withdraw_voting_tokens d s env (some v)
          ≡ ok (s', withdrawal token human v))
  unfolding withdraw_voting_tokens compute_locked_balance release_votes largest_vote
      share_to_withdraw amount_to_withdraw
  withdraw_returns s env v share key balance config state token human k found conf stored read named
        known some_stake owns part small product fits =
      let stake = balance - state.total_deposit in
      let sub = laws.sub_fits balance state.total_deposit (omega (arith, some_stake)) in
      let pos : stake ≢ 0 = omega (arith, some_stake) in
      let price = laws.ratio_fits v state.total_share stake pos product in
      let nothing : mul_u128 0 state.total_share ≡ ok 0 = ground arith in
      let no_lock = no_vote_locks stake pos in
      let w = max (v * state.total_share / stake) 1 in
      let manager : TokenManager = record { share = share; locked_balance = [] } in
      let enough = share_fits v state.total_share stake share pos owns fits in
      let paid =
        pay_out_returns s config state manager key w v token human enough part small named known in
      (
        paid_storage s state manager key w,
        simp (k, found, conf, stored, read, sub, nothing, no_lock, price, paid),
      )
