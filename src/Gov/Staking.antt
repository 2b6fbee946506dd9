-- ===== src/Gov/Staking.antt =====
-- contracts/gov/src/staking.rs: shares of the staked tokens.
use anchor_token_contracts.Base.{
  ℕ, String, Option, none, some, Result, ok, generic_err, panic, ◌>>=◌, ◌>>◌, fail_if, ltb, ◌==◌,
  ◌||◌, if◌then◌else◌, List, [], ◌∷◌, unwrap_or, ok_or, max, sub_uint, add_u128, mul_u128, div_uint,
}
use anchor_token_contracts.Base.Buckets.{may_load}
use anchor_token_contracts.Cosmwasm.{
  CanonicalAddr, HumanAddr, Deps, Env, HandleResponse, transfer, text, num,
}
use anchor_token_contracts.Gov.Types.{
  Config, State, Storage, TokenManager, VoterInfo, read_config, read_state, store_state, store_bank,
  remove_voter, no_stake, is_status, in_progress, contract_balance,
}

-- `retain` of the votes on polls in progress, as a loop: the votes kept, and the storage without
-- the voter's entry for the other polls. A vote on a poll that is not stored panics.
unfoldable pub release_votes :
    CanonicalAddr → List (ℕ × VoterInfo) → Storage → Result (List (ℕ × VoterInfo) × Storage)
release_votes voter [] s = ok ([], s)
release_votes voter ((poll_id, v) ∷ votes) s = do
  poll ← ok_or (may_load poll_id s.polls) panic
  let keep = is_status poll.status in_progress
  rest ← release_votes voter votes (if keep then s else remove_voter poll_id voter s)
  ok (if keep then (poll_id, v) ∷ rest.0 else rest.0, rest.1)

-- `.map(|v| v.balance).max().unwrap_or_default()`
unfoldable pub largest_vote : List (ℕ × VoterInfo) → ℕ
largest_vote [] = 0
largest_vote ((_, v) ∷ votes) = max v.balance (largest_vote votes)

-- The votes that are still locked, the storage, and the largest of the votes.
unfoldable pub compute_locked_balance :
    Storage → TokenManager → CanonicalAddr → Result (TokenManager × Storage × ℕ)
compute_locked_balance s manager voter = do
  kept ← release_votes voter manager.locked_balance s
  ok (record manager { locked_balance = kept.0 }, kept.1, largest_vote kept.0)

module _ (d : Deps) where
  -- The share that a deposit buys.
  unfoldable pub share_of_deposit : ℕ → ℕ → ℕ → Result ℕ
  share_of_deposit amount total_balance total_share =
      if (total_balance == 0) || (total_share == 0)
      then ok amount
      else d.multiply_ratio amount total_share total_balance

  unfoldable pub stake_voting_tokens : Storage → HumanAddr → ℕ → Result (Storage × HandleResponse)
  stake_voting_tokens s sender amount = do
    fail_if (amount == 0) (generic_err "Insufficient funds sent")
    key ← d.canonical_address sender
    let manager = unwrap_or (may_load key s.bank) no_stake
    config ← read_config s
    state ← read_state s
    balance ← contract_balance d config state
    set_aside ← d.uint_add state.total_deposit amount
    total_balance ← d.uint_sub balance set_aside
    share ← share_of_deposit amount total_balance state.total_share
    user_share ← d.uint_add manager.share share
    total_share ← d.uint_add state.total_share share
    ok (
      store_bank key (record manager { share = user_share })
          (store_state (record state { total_share = total_share }) s),
      record {
        messages = [];
        log =
            ("action", text "staking")
            ∷ ("sender", text sender)
            ∷ ("share", num share)
            ∷ ("amount", num amount)
            ∷ [];
      },
    )

  unfoldable pub send_tokens : CanonicalAddr → CanonicalAddr → ℕ → String → Result HandleResponse
  send_tokens asset_token recipient amount action = do
    contract_human ← d.human_address asset_token
    recipient_human ← d.human_address recipient
    ok (record {
      messages =
          record {
            contract_addr = contract_human;
            msg = transfer recipient_human amount;
            coins = [];
          }
          ∷ [];
      log =
          ("action", text action)
          ∷ ("recipient", text recipient_human)
          ∷ ("amount", num amount)
          ∷ [];
    })

  -- The share that a withdrawal gives up: at least one, and all that is not locked by default.
  unfoldable pub share_to_withdraw : Option ℕ → ℕ → ℕ → ℕ → ℕ → Result ℕ
  share_to_withdraw none user_share locked_share total_share total_balance =
      sub_uint user_share locked_share
  share_to_withdraw (some v) user_share locked_share total_share total_balance = do
    share ← d.multiply_ratio v total_share total_balance
    ok (max share 1)

  unfoldable pub amount_to_withdraw : Option ℕ → ℕ → ℕ → ℕ → Result ℕ
  amount_to_withdraw none withdraw_share total_share total_balance = do
    scaled ← mul_u128 withdraw_share total_balance
    div_uint scaled total_share
  amount_to_withdraw (some v) withdraw_share total_share total_balance = ok v

  -- The rest of a withdrawal, once the amounts are known.
  unfoldable pub pay_out :
      Storage
      → Config
      → State
      → TokenManager
      → CanonicalAddr
      → ℕ
      → ℕ
      → ℕ
      → Result (Storage × HandleResponse)
  pay_out s config state manager key locked_share withdraw_share withdraw_amount = do
    needed ← add_u128 locked_share withdraw_share
    fail_if (ltb manager.share needed) (generic_err "User is trying to withdraw too many tokens.")
    share ← sub_uint manager.share withdraw_share
    total_share ← sub_uint state.total_share withdraw_share
    response ← send_tokens config.anchor_token key withdraw_amount "withdraw"
    ok (
      store_state (record state { total_share = total_share })
          (store_bank key (record manager { share = share }) s),
      response,
    )

  unfoldable pub withdraw_voting_tokens :
      Storage → Env → Option ℕ → Result (Storage × HandleResponse)
  withdraw_voting_tokens s env amount = do
    key ← d.canonical_address env.sender
    manager ← ok_or (may_load key s.bank) (generic_err "Nothing staked")
    config ← read_config s
    state ← read_state s
    balance ← contract_balance d config state
    total_balance ← d.uint_sub balance state.total_deposit
    locked ← compute_locked_balance s manager key
    scaled ← mul_u128 locked.2 state.total_share
    locked_share ← div_uint scaled total_balance
    withdraw_share ←
        share_to_withdraw amount manager.share locked_share state.total_share total_balance
    withdraw_amount ← amount_to_withdraw amount withdraw_share state.total_share total_balance
    pay_out locked.1 config state locked.0 key locked_share withdraw_share withdraw_amount
