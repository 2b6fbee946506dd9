-- ===== src/Gov/Laws/Price.antt =====
-- What a share is worth before and after a deposit, and after a withdrawal of all that is not
-- locked.
use native.Mathlib.Nat.{div-mul-le_self}
use anchor_token_contracts.Base.{
  ℕ, String, ◌+◌, ◌-◌, ◌*◌, ◌/◌, ◌≤◌, ◌<◌, ◌≡◌, ◌≢◌, refl, ◌⊎◌, inl, inr, none, some, ok, arith,
  ℕ_discrete, subst,
}
use anchor_token_contracts.Cosmwasm.{
  Deps, IsCosmwasm, Env, HandleResponse, HumanAddr, CanonicalAddr, paid_in,
}
use anchor_token_contracts.Cosmwasm.Laws.{add_value, sub_value, ratio_value}
use anchor_token_contracts.Gov.Types.{Storage, State, Config, TokenManager, contract_balance}
use anchor_token_contracts.Base.Buckets.{Bucket, may_load, save, may_load-save}
use anchor_token_contracts.Gov.Laws.Withdrawal.{same_key}
use anchor_token_contracts.Gov.Laws.Pricing.{priced, left_priced, worth_bounds}
use anchor_token_contracts.Gov.Staking.{
  share_of_deposit, stake_voting_tokens, withdraw_voting_tokens, amount_to_withdraw, send_tokens,
}
use anchor_token_contracts.Gov.Effects.Shares.{stake_effect, withdraw_effect, pay_out_effect}

-- The stake per share, after `incoming` tokens came in and `outgoing` are sent, is no less than it
-- was, unless there were no shares.
abbrev pub KeepsPrice : Deps → Storage → ℕ → ℕ → Storage → Type 0
KeepsPrice d s incoming outgoing s' =
    (config : Config) × (s.config ≡ some config)
    × (state : State) × (s.state ≡ some state)
    × (balance : ℕ) × (contract_balance d config state ≡ ok balance)
    × (total : ℕ) × (s'.state ≡ some (record state { total_share = total }))
    × ((state.total_share ≡ 0)
        ⊎ ((balance - (state.total_deposit + incoming)) * total
            ≤ (balance - state.total_deposit - outgoing) * state.total_share))

-- The account has given up shares, and what was sent is what they were worth, rounded down: so it
-- comes out of the stake, not out of the deposits.
abbrev pub PaysWorth : Deps → Storage → CanonicalAddr → ℕ → Storage → Type 0
PaysWorth d s key sent s' =
    (config : Config) × (s.config ≡ some config)
    × (state : State) × (s.state ≡ some state)
    × (balance : ℕ) × (contract_balance d config state ≡ ok balance)
    × (manager : TokenManager) × (may_load key s.bank ≡ some manager)
    × (left : TokenManager) × (may_load key s'.bank ≡ some left)
    × (share : ℕ) × (left.share + share ≡ manager.share)
    × (s'.state ≡ some (record state { total_share = state.total_share - share }))
    × (share ≤ state.total_share)
    × (sent + state.total_deposit ≤ balance)
    × (sent * state.total_share ≤ share * (balance - state.total_deposit))
    × (share * (balance - state.total_deposit) < (sent + 1) * state.total_share)

module _ (d : Deps) (laws : IsCosmwasm d) where
  share_bought :
      (amount stake total : ℕ) {share : ℕ}
      → total ≢ 0
      → share_of_deposit d amount stake total ≡ ok share
      → share * stake ≤ amount * total
  unfolding share_of_deposit
  share_bought amount stake total {share} some_share h = elim (ℕ_discrete stake 0) [
    | yes nothing ↦ rw nothing (omega arith)
    | no something ↦
        let e : d.multiply_ratio amount total stake ≡ ok share = ground arith in
        let (_, value) = ratio_value laws amount total stake e in
        rw value (div-mul-le_self (amount * total) stake)
  ]

  -- A deposit does not lower what a share is worth: the stake per share after it, the stake being
  -- the balance without the deposits of polls, is no less than before it, unless there were no
  -- shares. The balance that the contract reads holds the new amount already.
  pub stake-KeepsPrice :
      (s : Storage) (sender : HumanAddr) (amount : ℕ) {s' : Storage} {r : HandleResponse}
      → stake_voting_tokens d s sender amount ≡ ok (s', r)
      → KeepsPrice d s amount 0 s'
  stake-KeepsPrice s sender amount h =
      let (
        key, _, config, conf, state, stored, balance, read, set_aside, aside, stake, staked, share,
        bought, user, _, total, totalled, _, e,
      ) =
        stake_effect d s sender amount h in
      let aside_value = add_value laws state.total_deposit amount aside in
      let (enough, stake_value) = sub_value laws balance set_aside staked in
      let total_value = add_value laws state.total_share share totalled in
      (
        config,
        conf,
        state,
        stored,
        balance,
        read,
        total,
        rw e refl,
        elim (ℕ_discrete state.total_share 0) [
          | yes z ↦ inl z
          | no some_share ↦ inr (
              priced balance state.total_deposit amount set_aside stake state.total_share share
                total aside_value enough stake_value total_value
                (share_bought amount stake state.total_share some_share bought))
        ],
      )

  sent_amount :
      (token : CanonicalAddr) (key : CanonicalAddr) (amount : ℕ) (action : String)
      {r : HandleResponse}
      → send_tokens d token key amount action ≡ ok r
      → paid_in r.messages ≡ amount
  unfolding send_tokens
  sent_amount token key amount action h = ground arith

  amount_worth :
      (share total stake : ℕ) {out : ℕ}
      → amount_to_withdraw d none share total stake ≡ ok out
      → (total ≢ 0) × (out ≡ share * stake / total)
  unfolding amount_to_withdraw
  amount_worth share total stake h = ground arith

  left_behind :
      (key : CanonicalAddr) (m : TokenManager) (b : Bucket TokenManager)
      → may_load key (save key m b) ≡ some m
  left_behind key m b = ground (arith, may_load-save key key m b)

  -- A withdrawal of all that is not locked, by an account that has a canonical address, sends what
  -- the shares given up are worth, rounded down. So it is paid out of the stake, even when it
  -- leaves no share, and it does not lower what a share is worth.
  pub withdraw-KeepsPrice :
      (s : Storage) (env : Env) (key : CanonicalAddr) {s' : Storage} {r : HandleResponse}
      → d.canonical_address env.sender ≡ ok key
      → withdraw_voting_tokens d s env none ≡ ok (s', r)
      → PaysWorth d s key (paid_in r.messages) s' × KeepsPrice d s 0 (paid_in r.messages) s'
  withdraw-KeepsPrice s env key known h =
      let (
        key', k, manager, found, config, conf, state, stored, balance, read, stake, subtracted,
        votes, released, share, _, out, worth, pos, paid,
      ) =
        withdraw_effect d s env none h in
      let same : key' ≡ key = same_key d laws key' key k known in
      let (enough, owned, sent, e) =
        pay_out_effect d votes.1 config state _ key' _ share out paid in
      let (covered, stake_is) = sub_value laws balance state.total_deposit subtracted in
      let (some_share, value) = amount_worth share state.total_share stake worth in
      let amount = sent_amount config.anchor_token key' out "withdraw" sent in
      let left : TokenManager = record {
        share = manager.share - share;
        locked_balance = votes.0;
      } in
      let (whole, low, high) =
        worth_bounds balance state.total_deposit stake state.total_share share out covered stake_is
          owned some_share value in
      (
        (
          config,
          conf,
          state,
          stored,
          balance,
          read,
          manager,
          subst (λ k. may_load k s.bank ≡ some manager) same found,
          left,
          rw e (
              subst (λ k. may_load k (save key' left votes.1.bank) ≡ some left) same
                (left_behind key' left votes.1.bank)),
          share,
          omega (arith, enough),
          rw e refl,
          owned,
          rw amount whole,
          rw amount low,
          rw amount high,
        ),
        (
          config,
          conf,
          state,
          stored,
          balance,
          read,
          state.total_share - share,
          rw e refl,
          inr (
              rw amount (
                left_priced balance state.total_deposit stake state.total_share share out stake_is
                  owned value)),
        ),
      )
