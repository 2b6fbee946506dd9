-- ===== src/Gov/Invariant/Shares.antt =====
-- The total of the shares against the stakers' shares.
use anchor_token_contracts.Base.{ℕ, ◌+◌, ◌-◌, ◌≡◌, refl, Option, none, some, ok, arith, unwrap_or}
use anchor_token_contracts.Base.Buckets.{may_load, save}
use anchor_token_contracts.Base.Sums.{Ascending, sum_by, weight, save-Ascending, sum_by-save}
use anchor_token_contracts.Cosmwasm.{
  Deps, Env, HandleResponse, HumanAddr, CanonicalAddr, IsCosmwasm,
}
use anchor_token_contracts.Gov.Types.{Storage, State, TokenManager, VoteOption, no_stake}
use anchor_token_contracts.Gov.Settings.{register_contracts, update_config}
use anchor_token_contracts.Gov.Staking.{stake_voting_tokens, withdraw_voting_tokens}
use anchor_token_contracts.Gov.Polls.End.{end_poll, close_poll}
use anchor_token_contracts.Gov.Polls.Vote.{cast_vote}
use anchor_token_contracts.Gov.Contract.{
  Cw20HookMsg, HandleMsg, stake_tokens, new_poll, receive, register, update, vote, withdraw, end,
  execute, expire, snapshot, run_hook, handle,
}
use anchor_token_contracts.Gov.Effects.Polls.{
  execute_poll_effect, expire_poll_effect, snapshot_poll_effect, end_poll_effect, cast_vote_effect,
  create_poll_effect,
}
use anchor_token_contracts.Gov.Effects.Shares.{
  release_votes-OnlyVoters, stake_effect, withdraw_effect, pay_out_effect,
}
use anchor_token_contracts.Gov.Invariant.Handle.{receive_cw20_effect}

abbrev pub share_of : TokenManager → ℕ
share_of m = m.share

abbrev pub total_of : Option State → ℕ
total_of none = 0
total_of (some state) = state.total_share

-- The total is the sum of the stakers' shares.
pub record IsBalanced (s : Storage) : Type 0 where
  pub ascending : Ascending s.bank
  pub total : total_of s.state ≡ sum_by share_of s.bank

-- The ways in which a message changes the shares: not at all, or one staker's share and the total
-- by as much.
pub data BankChange (s s' : Storage) : Type 0 where
  untouched : s'.bank ≡ s.bank → total_of s'.state ≡ total_of s.state → BankChange s s'
  stores :
      (key : CanonicalAddr) (m : TokenManager)
      → s'.bank ≡ save key m s.bank
      → total_of s'.state + weight share_of (may_load key s.bank) ≡ total_of s.state + m.share
      → BankChange s s'

BankChange-IsBalanced : {s s' : Storage} → IsBalanced s → BankChange s s' → IsBalanced s'
BankChange-IsBalanced v (untouched bank total) = record {
  ascending = rw bank v.ascending;
  total = rw (bank, total) v.total;
}
BankChange-IsBalanced {s} v (stores key m bank total) = record {
  ascending = rw bank (save-Ascending key m s.bank v.ascending);
  total = rw bank (omega (arith, total, v.total, sum_by-save share_of key m s.bank v.ascending));
}

share-default : (o : Option TokenManager) → (unwrap_or o no_stake).share ≡ weight share_of o
share-default none = refl
share-default (some m) = refl

module _ (d : Deps) (laws : IsCosmwasm d) where
  stake-BankChange :
      (s : Storage) (sender : HumanAddr) (amount : ℕ) {s' : Storage} {r : HandleResponse}
      → stake_voting_tokens d s sender amount ≡ ok (s', r)
      → BankChange s s'
  stake-BankChange s sender amount h =
      let (
        key, _, _, _, state, stored, _, _, _, _, _, _, share, _, user, user_sum, total, total_sum,
        _, e,
      ) =
        stake_effect d s sender amount h in
      let old = unwrap_or (may_load key s.bank) no_stake in
      rw e (
        stores key (record { share = user; locked_balance = old.locked_balance }) refl
          (rw stored (
            ground (
              arith,
              laws.add_cases old.share share,
              laws.add_cases state.total_share share,
              share-default (may_load key s.bank),
            ))))

  withdraw-BankChange :
      (s : Storage) (env : Env) (amount : Option ℕ) {s' : Storage} {r : HandleResponse}
      → withdraw_voting_tokens d s env amount ≡ ok (s', r)
      → BankChange s s'
  withdraw-BankChange s env amount h =
      let (
        key, _, manager, found, config, _, state, stored, _, _, total, _, votes, released, share, _,
        out, _, _, paid,
      ) =
        withdraw_effect d s env amount h in
      let only = release_votes-OnlyVoters key manager.locked_balance s votes released in
      let (enough, total_enough, _, e) =
        pay_out_effect d votes.1 config state _ key _ share out paid in
      rw e (
        stores key (record { share = manager.share - share; locked_balance = votes.0 })
          (rw only.same_bank refl) (rw (stored, found) (omega arith)))

  cast_vote-BankChange :
      (s : Storage) (env : Env) (id : ℕ) (v : VoteOption) (amount : ℕ) {s' : Storage}
      {r : HandleResponse}
      → cast_vote d s env id v amount ≡ ok (s', r)
      → BankChange s s'
  cast_vote-BankChange s env id v amount h =
      let (key, _, _, _, _, _, _, _, _, _, _, _, _, _, _, _, _, _, _, _, e) =
        cast_vote_effect d s env id v amount h in
      rw e (stores key _ refl (ground (arith, share-default (may_load key s.bank))))

  end_poll-BankChange :
      (s : Storage) (env : Env) (id : ℕ) {s' : Storage} {r : HandleResponse}
      → end_poll d s env id ≡ ok (s', r)
      → BankChange s s'
  unfolding close_poll
  end_poll-BankChange s env id h =
      let (_, _, _, _, state, stored, _, _, _, _, _, _, _, _, _, _, _, e) =
        end_poll_effect d s env id h in
      rw e (untouched refl (rw stored))

  run_hook-BankChange :
      (s : Storage) (env : Env) (sender : HumanAddr) (amount : ℕ) (hook : Option Cw20HookMsg)
      {s' : Storage} {r : HandleResponse}
      → run_hook d s env sender amount hook ≡ ok (s', r)
      → BankChange s s'
  unfolding run_hook
  run_hook-BankChange s env sender amount none h = cc
  run_hook-BankChange s env sender amount (some stake_tokens) h = stake-BankChange s sender amount h
  run_hook-BankChange s env sender amount (some (new_poll title description link msgs)) h =
      let (_, _, state, stored, _, _, _, _, _, _, _, e) =
        create_poll_effect d s env sender amount title description link msgs h in
      rw e (untouched refl (rw stored))

  handle-BankChange :
      (s : Storage) (env : Env) (m : HandleMsg) {s' : Storage} {r : HandleResponse}
      → handle d s env m ≡ ok (s', r)
      → BankChange s s'
  unfolding handle register_contracts update_config
  handle-BankChange s env (receive m) h =
      let (_, _, _, hook, _, ran) = receive_cw20_effect d s env m h in
      run_hook-BankChange s env m.cw20_sender m.cw20_amount hook ran
  handle-BankChange s env (register anchor_token) h = untouched (ground arith) (ground arith)
  handle-BankChange s env (update m) h = untouched (ground arith) (ground arith)
  handle-BankChange s env (vote id v amount) h = cast_vote-BankChange s env id v amount h
  handle-BankChange s env (withdraw amount) h = withdraw-BankChange s env amount h
  handle-BankChange s env (end id) h = end_poll-BankChange s env id h
  handle-BankChange s env (execute id) h =
      let (_, _, _, e) = execute_poll_effect d s env id h in rw e (untouched refl refl)
  handle-BankChange s env (expire id) h =
      let (_, _, _, e) = expire_poll_effect d s env id h in rw e (untouched refl refl)
  handle-BankChange s env (snapshot id) h =
      let (_, _, _, _, _, _, _, _, _, _, _, _, e) = snapshot_poll_effect d s env id h in
      rw e (untouched refl refl)

  -- A message that succeeds keeps the total of the shares equal to the sum of the stakers' shares.
  pub handle-IsBalanced :
      (s : Storage) (env : Env) (m : HandleMsg) {s' : Storage} {r : HandleResponse}
      → IsBalanced s
      → handle d s env m ≡ ok (s', r)
      → IsBalanced s'
  handle-IsBalanced s env m v h = BankChange-IsBalanced v (handle-BankChange s env m h)
