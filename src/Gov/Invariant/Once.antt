-- ===== src/Gov/Invariant/Once.antt =====
-- No account votes twice on a poll.
use anchor_token_contracts.Base.{ℕ, ◌≡◌, ◌≢◌, none, some, ok, arith, ℕ_discrete, subst}
use anchor_token_contracts.Base.Buckets.{Bucket, may_load, save, may_load-save}
use anchor_token_contracts.Cosmwasm.{
  Deps, Env, HandleResponse, CanonicalAddr, IsCosmwasm, Answers, answering, answering-IsCosmwasm,
}
use anchor_token_contracts.Gov.Types.{Storage, Poll, VoteOption, VoterInfo, in_progress}
use anchor_token_contracts.Gov.Settings.{InitMsg, init}
use anchor_token_contracts.Gov.Polls.Vote.{cast_vote}
use anchor_token_contracts.Gov.Contract.{handle, vote}
use anchor_token_contracts.Gov.Effects.Polls.{cast_vote_effect}
use anchor_token_contracts.Gov.Invariant.Index.{
  IsIndexed, Reach, here, next, Reach-IsIndexed, init-IsIndexed, handle-IsIndexed,
}
use anchor_token_contracts.Gov.Invariant.Votes.{
  VoteChange, releases, creates, stores, counts, ==_ne, ==_refl,
}
use anchor_token_contracts.Gov.Invariant.Tallied.{handle-VoteChange}
use anchor_token_contracts.Gov.Laws.Voting.{cast_vote_counts}

-- The poll is stored, and as long as it is in progress the account's vote is recorded for it.
abbrev HasVoted : CanonicalAddr → ℕ → Storage → Type 0
HasVoted key id s =
    (p : Poll) × (may_load id s.polls ≡ some p)
    × (p.status ≡ in_progress → may_load key (s.poll_voters id) ≢ none)

still_recorded :
    (key key' : CanonicalAddr) (v : VoterInfo) (b : Bucket VoterInfo)
    → may_load key b ≢ none
    → may_load key (save key' v b) ≢ none
still_recorded key key' v b h e = ground (arith, may_load-save key' key v b, h)

other_poll :
    (id i : ℕ) (q p : Poll) (b : Bucket Poll)
    → i ≢ id
    → may_load id b ≡ some p
    → may_load id (save i q b) ≡ some p
other_poll id i q p b ne found = ground (arith, may_load-save i id q b)

saved_poll : (i id : ℕ) (q : Poll) (b : Bucket Poll) → i ≡ id → may_load id (save i q b) ≡ some q
saved_poll i id q b e = ground (arith, may_load-save i id q b)

VoteChange-HasVoted :
    (key : CanonicalAddr) (id : ℕ) {s s' : Storage}
    → HasVoted key id s
    → VoteChange s s'
    → HasVoted key id s'
VoteChange-HasVoted key id {s} (p, found, voted) (releases polls kept missing) =
    (p, rw polls found, λ is. rw (kept id p found is) (voted is))
VoteChange-HasVoted key id {s} (p, found, voted) (creates i q fresh _ _ polls voters) =
    let ne : i ≢ id = λ e. ground (arith, fresh, found, e) in
    (p, rw polls (other_poll id i q p s.polls ne found), λ is. rw voters (voted is))
VoteChange-HasVoted key id {s} (p, found, voted) (stores i old q at same polls voters) =
    elim (ℕ_discrete i id) [
      | yes e ↦
          let same_poll : old ≡ p = ground (arith, at, found, e) in
          (
            q,
            rw polls (saved_poll i id q s.polls e),
            λ is. rw voters (voted (subst (λ x. x.status ≡ in_progress) same_poll (same is).0)),
          )
      | no ne ↦ (p, rw polls (other_poll id i q p s.polls ne found), λ is. rw voters (voted is))
    ]
VoteChange-HasVoted key id {s} (p, found, voted)
      (counts i old q key' v at was fresh _ _ polls voters) =
    elim (ℕ_discrete i id) [
      | yes e ↦
          let same_poll : old ≡ p = ground (arith, at, found, e) in
          let recorded = voted (subst (λ x. x.status ≡ in_progress) same_poll was) in
          (
            q,
            rw polls (saved_poll i id q s.polls e),
            λ is.
                rw (voters, e, ==_refl id) (still_recorded key key' v (s.poll_voters id) recorded),
          )
      | no ne ↦ (
        p,
        rw polls (other_poll id i q p s.polls ne found),
        λ is. rw (voters, ==_ne i id ne) (voted is),
      )
    ]

module _ (d : Deps) (laws : IsCosmwasm d) where
  Reach-HasVoted :
      (key : CanonicalAddr) (id : ℕ) {s t : Storage}
      → IsIndexed s
      → HasVoted key id s
      → Reach d s t
      → HasVoted key id t
  Reach-HasVoted key id v voted here = voted
  Reach-HasVoted key id v voted (next {t} run answers env m _ h) =
      VoteChange-HasVoted key id (Reach-HasVoted key id v voted run) (
        handle-VoteChange (answering d answers) (answering-IsCosmwasm laws answers) t env m
          (Reach-IsIndexed v run) h)

  vote_handled :
      (s : Storage) (env : Env) (id : ℕ) (v : VoteOption) (amount : ℕ) {s' : Storage}
      {r : HandleResponse}
      → cast_vote d s env id v amount ≡ ok (s', r)
      → handle d s env (vote id v amount) ≡ ok (s', r)
  unfolding handle
  vote_handled s env id v amount h = h

  cast_vote-HasVoted :
      (s : Storage) (env : Env) (id : ℕ) (v : VoteOption) (amount : ℕ) {s' : Storage}
      {r : HandleResponse}
      → cast_vote d s env id v amount ≡ ok (s', r)
      → (key : CanonicalAddr) × (d.canonical_address env.sender ≡ ok key) × HasVoted key id s'
  cast_vote-HasVoted s env id v amount h =
      let (
        key, known, _, _, _, _, _, _, _, _, _, _, _, _, _, _, q, stored, _, _, recorded, _, _, _, _,
      ) =
        cast_vote_counts d laws s env id v amount h in
      (key, known, (q, stored, λ is e. ground (arith, recorded, e)))

module _ (d : Deps) (laws : IsCosmwasm d) where
  -- After a vote that is counted in a state that `init` leads to, and whatever messages succeed
  -- after it, no second vote on the poll succeeds that comes from an address with the same
  -- canonical form. The token balance may be another at each message and at either vote.
  pub cast_vote_once :
      (init_env env later : Env) (m : InitMsg) (fresh s t : Storage) (id : ℕ) (v again : VoteOption)
      (amount more : ℕ) (answers answers' : Answers) {s' u : Storage} {r r' : HandleResponse}
      → init d init_env m ≡ ok fresh
      → Reach d fresh s
      → cast_vote (answering d answers) s env id v amount ≡ ok (s', r)
      → Reach d s' t
      → d.canonical_address later.sender ≡ d.canonical_address env.sender
      → cast_vote (answering d answers') t later id again more ≢ ok (u, r')
  cast_vote_once init_env env later m fresh s t id v again amount more answers answers' start run h
        after same twice =
      let now = answering d answers in
      let (key, known, voted) =
        cast_vote-HasVoted now (answering-IsCosmwasm laws answers) s env id v amount h in
      let indexed =
        handle-IsIndexed now s env (vote id v amount)
          (Reach-IsIndexed (init-IsIndexed d init_env m start) run)
          (vote_handled now (answering-IsCosmwasm laws answers) s env id v amount h) in
      let (p, found, recorded) = Reach-HasVoted d laws key id indexed voted after in
      let (key', known', p', found', _, _, _, _, _, _, _, _, _, _, _, _, was, _, missing, _, _) =
        cast_vote_effect (answering d answers') t later id again more twice in
      let one : key' ≡ key = ground (arith, known, known', same) in
      let same_poll : p' ≡ p = ground (arith, found, found') in
      recorded (subst (λ x. x.status ≡ in_progress) same_poll was)
        (subst (λ k. may_load k (t.poll_voters id) ≡ none) one missing)
