-- ===== src/Gov/Invariant/Tallied.antt =====
-- Each message against the recorded votes, and the tally in every state.
use anchor_token_contracts.Base.{
  ℕ, ◌+◌, ◌≡◌, refl, Option, none, some, ok, arith, Bool, true, false, if◌then◌else◌, ◌∙◌, List, [],
  ◌∷◌, ℕ_discrete, ◌-◌,
}
use anchor_token_contracts.Base.Buckets.{may_load}
use anchor_token_contracts.Base.Sums.{sum_by}
use anchor_token_contracts.Cosmwasm.{
  Deps, Env, HandleResponse, HumanAddr, CanonicalAddr, IsCosmwasm, answering, answering-IsCosmwasm,
}
use anchor_token_contracts.Gov.Types.{
  Storage, Poll, VoteOption, VoterInfo, in_progress, is_status, remove_voter,
}
use anchor_token_contracts.Gov.Settings.{InitMsg, init, register_contracts, update_config}
use anchor_token_contracts.Gov.Staking.{release_votes, withdraw_voting_tokens}
use anchor_token_contracts.Gov.Polls.End.{end_poll, close_poll}
use anchor_token_contracts.Gov.Polls.Vote.{cast_vote, take_snapshot}
use anchor_token_contracts.Gov.Contract.{
  Cw20HookMsg, HandleMsg, stake_tokens, new_poll, receive, register, update, vote, withdraw, end,
  execute, expire, snapshot, run_hook, handle,
}
use anchor_token_contracts.Gov.Effects.Polls.{
  execute_poll_effect, expire_poll_effect, snapshot_poll_effect, end_poll_effect, cast_vote_effect,
  create_poll_effect,
}
use anchor_token_contracts.Gov.Effects.Shares.{
  release_votes_rest, release_votes-OnlyVoters, stake_effect, withdraw_effect, pay_out_effect,
}
use anchor_token_contracts.Gov.Invariant.Handle.{receive_cw20_effect}
use anchor_token_contracts.Gov.Invariant.Index.{
  IsIndexed, Reach, here, next, Reach-IsIndexed, init-IsIndexed, fresh_id,
}
use anchor_token_contracts.Gov.Laws.Voting.{count_vote_value, info_of}
use anchor_token_contracts.Gov.Invariant.Votes.{
  yes_of, no_of, IsTallied, VoteChange, releases, creates, stores, counts, VoteChange-IsTallied,
  ==_ne,
}

quiet : {s s' : Storage} → s'.polls ≡ s.polls → s'.poll_voters ≡ s.poll_voters → VoteChange s s'
quiet polls voters = releases polls (λ id p found is. rw voters refl) (λ id found. rw voters refl)

abbrev is_open : Option Poll → Bool
is_open none = true
is_open (some p) = is_status p.status in_progress

-- Of a poll that is stored and not in progress, a vote may be dropped; of no other.
dropped_voters :
    (key : CanonicalAddr) (j id : ℕ) (p : Poll) (keep : Bool) (s : Storage)
    → may_load j s.polls ≡ some p
    → keep ≡ is_status p.status in_progress
    → is_open (may_load id s.polls) ≡ true
    → (if keep then s else remove_voter j key s).poll_voters id ≡ s.poll_voters id
dropped_voters key j id p true s found e still_open = refl
dropped_voters key j id p false s found e still_open = elim (ℕ_discrete j id) [
  | yes same ↦ absurd (ground (arith, found, e, same, still_open))
  | no other ↦ rw (==_ne j id other) refl
]

dropped_polls :
    (key : CanonicalAddr) (j : ℕ) (keep : Bool) (s : Storage)
    → (if keep then s else remove_voter j key s).polls ≡ s.polls
dropped_polls key j true s = refl
dropped_polls key j false s = refl

release_keeps :
    (key : CanonicalAddr) (l : List (ℕ × VoterInfo)) (s : Storage)
    (r : List (ℕ × VoterInfo) × Storage) (id : ℕ)
    → release_votes key l s ≡ ok r
    → is_open (may_load id s.polls) ≡ true
    → r.1.poll_voters id ≡ s.poll_voters id
unfolding release_votes
release_keeps key [] s r id h still_open = ground arith
release_keeps key ((j, v) ∷ l) s r id h still_open =
    let (p, found, rest, e, whole) = release_votes_rest key j v l s h in
    let keep = is_status p.status in_progress in
    rw whole (
      release_keeps key l (if keep then s else remove_voter j key s) rest id e
        (rw (dropped_polls key j keep s) still_open)
      ∙ dropped_voters key j id p keep s found refl still_open)

module _ (d : Deps) (laws : IsCosmwasm d) where
  withdraw-VoteChange :
      (s : Storage) (env : Env) (amount : Option ℕ) {s' : Storage} {r : HandleResponse}
      → withdraw_voting_tokens d s env amount ≡ ok (s', r)
      → VoteChange s s'
  withdraw-VoteChange s env amount h =
      let (
        key, _, manager, _, config, _, state, _, _, _, _, _, votes, released, share, _, out, _, _,
        paid,
      ) =
        withdraw_effect d s env amount h in
      let only = release_votes-OnlyVoters key manager.locked_balance s votes released in
      let (_, _, _, e) = pay_out_effect d votes.1 config state _ key _ share out paid in
      rw e (
        releases only.same_polls
          (λ id p found is.
            release_keeps key manager.locked_balance s votes id released (rw (found, is) refl))
          (λ id found.
            release_keeps key manager.locked_balance s votes id released (rw found refl)))

  cast_vote-VoteChange :
      (s : Storage) (env : Env) (id : ℕ) (v : VoteOption) (amount : ℕ) {s' : Storage}
      {r : HandleResponse}
      → cast_vote d s env id v amount ≡ ok (s', r)
      → VoteChange s s'
  cast_vote-VoteChange s env id v amount h =
      let (
        key, _, p, found, config, _, _, _, _, _, balance, _, _, _, counted, count, was, _, fresh, _,
        e,
      ) =
        cast_vote_effect d s env id v amount h in
      let (yes_sum, no_sum) =
        count_vote_value d laws config p v amount (p.end_height - env.block_height) balance count in
      rw e (
        counts id p (take_snapshot d config counted (p.end_height - env.block_height) balance) key
          (info_of v amount) found was fresh (ground (arith, yes_sum)) (ground (arith, no_sum)) refl
          refl)

  end_poll-VoteChange :
      (s : Storage) (env : Env) (id : ℕ) {s' : Storage} {r : HandleResponse}
      → end_poll d s env id ≡ ok (s', r)
      → VoteChange s s'
  unfolding close_poll
  end_poll-VoteChange s env id h =
      let (p, found, _, _, _, _, was, _, weights, _, o, _, _, _, _, _, _, e) =
        end_poll_effect d s env id h in
      rw e (stores id p _ found (λ is. (was, refl, refl)) refl refl)

  run_hook-VoteChange :
      (s : Storage) (env : Env) (sender : HumanAddr) (amount : ℕ) (hook : Option Cw20HookMsg)
      {s' : Storage} {r : HandleResponse}
      → IsIndexed s
      → run_hook d s env sender amount hook ≡ ok (s', r)
      → VoteChange s s'
  unfolding run_hook
  run_hook-VoteChange s env sender amount none v h = cc
  run_hook-VoteChange s env sender amount (some stake_tokens) v h =
      let (_, _, _, _, _, _, _, _, _, _, _, _, _, _, _, _, _, _, _, e) =
        stake_effect d s sender amount h in
      rw e (releases refl (λ id p found is. refl) (λ id found. refl))
  run_hook-VoteChange s env sender amount (some (new_poll title description link msgs)) v h =
      let (_, _, state, stored, _, _, _, _, _, _, _, e) =
        create_poll_effect d s env sender amount title description link msgs h in
      rw e (
        creates (state.poll_count + 1) _ (fresh_id s (state.poll_count + 1) v (rw stored refl)) refl
          refl refl refl)

  pub handle-VoteChange :
      (s : Storage) (env : Env) (m : HandleMsg) {s' : Storage} {r : HandleResponse}
      → IsIndexed s
      → handle d s env m ≡ ok (s', r)
      → VoteChange s s'
  unfolding handle register_contracts update_config
  handle-VoteChange s env (receive m) v h =
      let (_, _, _, hook, _, ran) = receive_cw20_effect d s env m h in
      run_hook-VoteChange s env m.cw20_sender m.cw20_amount hook v ran
  handle-VoteChange s env (register anchor_token) v h = quiet (ground arith) (ground arith)
  handle-VoteChange s env (update m) v h = quiet (ground arith) (ground arith)
  handle-VoteChange s env (vote id o amount) v h = cast_vote-VoteChange s env id o amount h
  handle-VoteChange s env (withdraw amount) v h = withdraw-VoteChange s env amount h
  handle-VoteChange s env (end id) v h = end_poll-VoteChange s env id h
  handle-VoteChange s env (execute id) v h =
      let (p, found, was, e) = execute_poll_effect d s env id h in
      rw e (stores id p _ found (λ is. absurd (cc is)) refl refl)
  handle-VoteChange s env (expire id) v h =
      let (p, found, was, e) = expire_poll_effect d s env id h in
      rw e (stores id p _ found (λ is. absurd (cc is)) refl refl)
  handle-VoteChange s env (snapshot id) v h =
      let (p, found, _, _, _, _, _, _, _, _, was, _, e) = snapshot_poll_effect d s env id h in
      rw e (stores id p _ found (λ is. (was, refl, refl)) refl refl)

  init-IsTallied : (env : Env) (m : InitMsg) {s : Storage} → init d env m ≡ ok s → IsTallied s
  unfolding init may_load
  init-IsTallied env m h = record {
    tallied = λ id p found is. absurd (ground arith);
    unvoted = λ id found. ground arith;
  }

module _ (d : Deps) (laws : IsCosmwasm d) where
  Reach-IsTallied : {s t : Storage} → IsIndexed s → IsTallied s → Reach d s t → IsTallied t
  Reach-IsTallied v f here = f
  Reach-IsTallied v f (next {t} run answers env m _ h) =
      VoteChange-IsTallied (Reach-IsTallied v f run) (
        handle-VoteChange (answering d answers) (answering-IsCosmwasm laws answers) t env m
          (Reach-IsIndexed v run) h)

  -- In every state that any sequence of successful messages reaches from `init`, whatever balance
  -- each of them finds, the yes votes and
  -- the no votes of a poll in progress are the sums of the votes that are recorded for it.
  pub tally_backed :
      (env : Env) (m : InitMsg) (s t : Storage) (id : ℕ) (p : Poll)
      → init d env m ≡ ok s
      → Reach d s t
      → may_load id t.polls ≡ some p
      → p.status ≡ in_progress
      → (p.yes_votes ≡ sum_by yes_of (t.poll_voters id))
        × (p.no_votes ≡ sum_by no_of (t.poll_voters id))
  tally_backed env m s t id p h run found is =
      let v = Reach-IsTallied (init-IsIndexed d env m h) (init-IsTallied d laws env m h) run in
      let fits = v.tallied id p found is in (fits.yes_sum, fits.no_sum)
