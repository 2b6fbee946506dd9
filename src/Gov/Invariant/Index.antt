-- ===== src/Gov/Invariant/Index.antt =====
-- The poll indexer against the polls, and the life of a poll.
use anchor_token_contracts.Base.{
  ℕ, ◌+◌, ◌≤◌, ◌≡◌, refl, Bool, true, false, Option, none, some, ok, arith, if◌then◌else◌, ◌⊎◌, inl,
  inr, subst, ℕ_discrete, Option-cases, ◌∙◌,
}
use anchor_token_contracts.Base.Buckets.{may_load, may_load-save, may_load-remove}
use anchor_token_contracts.Cosmwasm.{Deps, Env, HandleResponse, Answers, answering}
use anchor_token_contracts.Gov.Types.{
  Storage, Poll, PollStatus, in_progress, passed, rejected, executed, expired, is_status,
}
use anchor_token_contracts.Gov.Settings.{InitMsg, init}
use anchor_token_contracts.Gov.Contract.{HandleMsg, handle}
use anchor_token_contracts.Gov.Invariant.Change.{
  Advances, passes, fails, executes, expires, SamePoll, Change, keeps, creates, revises, moves,
  count_of,
}
use anchor_token_contracts.Gov.Invariant.Handle.{handle-Change}

-- What the indexer of a status holds at the id of a poll.
abbrev pub index_entry : PollStatus → Option Poll → Option Bool
index_entry st none = none
index_entry st (some p) = if is_status p.status st then some true else none

-- The indexer of each status lists exactly the polls with that status; a poll is stored under
-- its own id, and the ids are those given out so far.
pub record IsIndexed (s : Storage) : Type 0 where
  pub indexed :
      (st : PollStatus) (id : ℕ)
      → may_load id (s.poll_indexer st) ≡ index_entry st (may_load id s.polls)
  pub own_id : (id : ℕ) (p : Poll) → may_load id s.polls ≡ some p → p.id ≡ id
  pub numbered : (id : ℕ) (p : Poll) → may_load id s.polls ≡ some p → id ≤ count_of s.state

pub fresh_id :
    (s : Storage) (id : ℕ) → IsIndexed s → id ≡ count_of s.state + 1 → may_load id s.polls ≡ none
fresh_id s id v e = elim (Option-cases (may_load id s.polls)) [
  | inl missing ↦ missing
  | inr (p, found) ↦ absurd (omega (arith, v.numbered id p found))
]

edge-ne : {a b : PollStatus} → Advances a b → is_status a b ≡ false
edge-ne passes = refl
edge-ne fails = refl
edge-ne executes = refl
edge-ne expires = refl

pub Change-IsIndexed : {s s' : Storage} → IsIndexed s → Change s s' → IsIndexed s'
Change-IsIndexed {s} v (keeps polls indexer count) = record {
  indexed = λ st id. rw (polls, indexer) (v.indexed st id);
  own_id = λ id p h. v.own_id id p (rw polls at h);
  numbered = λ id p h. rw count (v.numbered id p (rw polls at h));
}
Change-IsIndexed {s} v (creates p number is polls indexer count) = record {
  indexed = λ st id.
      rw (polls, indexer)
        (ground (
          arith,
          v.indexed st id,
          may_load-save p.id id p s.polls,
          may_load-save p.id id true (s.poll_indexer st),
          fresh_id s p.id v number,
        ));
  own_id = λ id q h. ground (arith, v.own_id id q, may_load-save p.id id p s.polls);
  numbered = λ id q h. ground (arith, v.numbered id q, may_load-save p.id id p s.polls);
}
Change-IsIndexed {s} v (revises i p q found was is same polls indexer count) = record {
  indexed =
      λ st id. rw (polls, indexer) (ground (arith, v.indexed st id, may_load-save i id q s.polls));
  own_id =
      λ id r h. ground (arith, v.own_id id r, v.own_id i p found, may_load-save i id q s.polls);
  numbered =
      λ id r h. ground (arith, v.numbered id r, v.numbered i p found, may_load-save i id q s.polls);
}
Change-IsIndexed {s} v (moves i p q found edge same polls indexer count) = record {
  indexed = λ st id.
      rw (polls, indexer)
        (ground (
          arith,
          v.indexed st id,
          may_load-save i id q s.polls,
          may_load-save i id true (s.poll_indexer st),
          may_load-remove i id (s.poll_indexer st),
          edge-ne edge,
        ));
  own_id =
      λ id r h. ground (arith, v.own_id id r, v.own_id i p found, may_load-save i id q s.polls);
  numbered =
      λ id r h. ground (arith, v.numbered id r, v.numbered i p found, may_load-save i id q s.polls);
}

-- No message removes a poll, changes its terms, or moves its status but along an edge.
pub Change-life :
    {s s' : Storage} (id : ℕ) (p : Poll)
    → IsIndexed s
    → Change s s'
    → may_load id s.polls ≡ some p
    → (q : Poll) × (may_load id s'.polls ≡ some q)
      × SamePoll p q
      × ((q.status ≡ p.status) ⊎ Advances p.status q.status)
Change-life id p v (keeps polls indexer count) h = (p, rw polls h, ground arith, inl refl)
Change-life {s} id p v (creates new number is polls indexer count) h = (
  p,
  rw polls (ground (arith, v.numbered id p h, may_load-save new.id id new s.polls)),
  ground arith,
  inl refl,
)
Change-life {s} id p v (revises i old q found was is same polls indexer count) h =
    elim (ℕ_discrete i id) [
      | yes e ↦
          let e' : old ≡ p = ground arith in
          (
            q,
            rw polls (ground (arith, may_load-save i id q s.polls)),
            ground arith,
            inl (ground arith),
          )
      | no ne ↦ (p, rw polls (ground (arith, may_load-save i id q s.polls)), ground arith, inl refl)
    ]
Change-life {s} id p v (moves i old q found edge same polls indexer count) h =
    elim (ℕ_discrete i id) [
      | yes e ↦
          let e' : old ≡ p = ground arith in
          (
            q,
            rw polls (ground (arith, may_load-save i id q s.polls)),
            ground arith,
            inr (subst (λ x. Advances x.status q.status) e' edge),
          )
      | no ne ↦ (p, rw polls (ground (arith, may_load-save i id q s.polls)), ground arith, inl refl)
    ]

-- A status with no edge out of it.
abbrev pub is_final : PollStatus → Bool
is_final in_progress = false
is_final passed = false
is_final rejected = true
is_final executed = true
is_final expired = true

not-is_final : {a b : PollStatus} → Advances a b → is_final a ≡ false
not-is_final passes = refl
not-is_final fails = refl
not-is_final executes = refl
not-is_final expires = refl

pub init-IsIndexed :
    (d : Deps) (env : Env) (m : InitMsg) {s : Storage} → init d env m ≡ ok s → IsIndexed s
unfolding init may_load
init-IsIndexed d env m h = record {
  indexed = λ st id. ground arith;
  own_id = λ id p found. ground arith;
  numbered = λ id p found. ground arith;
}

-- What any sequence of messages that succeed leads to. Each message finds answers of its own at
-- the other contracts, so a token balance of its own.
pub data Reach (d : Deps) (s : Storage) : Storage → Type 0 where
  here : Reach d s s
  next :
      {t u : Storage}
      → Reach d s t
      → (answers : Answers) (env : Env) (m : HandleMsg) (r : HandleResponse)
      → handle (answering d answers) t env m ≡ ok (u, r)
      → Reach d s u

-- A message that succeeds keeps the indexer in step with the polls.
pub handle-IsIndexed :
    (d : Deps) (s : Storage) (env : Env) (m : HandleMsg) {s' : Storage} {r : HandleResponse}
    → IsIndexed s
    → handle d s env m ≡ ok (s', r)
    → IsIndexed s'
handle-IsIndexed d s env m v h = Change-IsIndexed v (handle-Change d s env m v.own_id h)

pub Reach-IsIndexed : {d : Deps} {s t : Storage} → IsIndexed s → Reach d s t → IsIndexed t
Reach-IsIndexed v here = v
Reach-IsIndexed v (next {t} r answers env m _ h) =
    handle-IsIndexed _ t env m (Reach-IsIndexed v r) h

module _ (d : Deps) (init_env : Env) (m : InitMsg) (fresh : Storage) where
  -- In every state that any sequence of successful messages reaches from `init`, the indexer of
  -- each status holds exactly the ids of the polls with that status. The token balance may be
  -- another at each message.
  pub index_of_status :
      (s : Storage) (st : PollStatus) (id : ℕ)
      → init d init_env m ≡ ok fresh
      → Reach d fresh s
      → may_load id (s.poll_indexer st) ≡ index_entry st (may_load id s.polls)
  index_of_status s st id start run =
      (Reach-IsIndexed (init-IsIndexed d init_env m start) run).indexed st id

  -- In every state that any sequence of successful messages reaches from `init`, one more message
  -- that succeeds keeps every poll with its terms: its id, creator, end height, title,
  -- description, link, messages, deposit, and its snapshot once taken. Its status stays or moves
  -- along an edge: in progress to passed or rejected, passed to executed or expired.
  pub handle_poll_life :
      (s s' : Storage) (answers : Answers) (env : Env) (msg : HandleMsg) (id : ℕ) (p : Poll)
      {r : HandleResponse}
      → init d init_env m ≡ ok fresh
      → Reach d fresh s
      → handle (answering d answers) s env msg ≡ ok (s', r)
      → may_load id s.polls ≡ some p
      → (q : Poll) × (may_load id s'.polls ≡ some q)
        × SamePoll p q
        × ((q.status ≡ p.status) ⊎ Advances p.status q.status)
  handle_poll_life s s' answers env msg id p start run h found =
      let v = Reach-IsIndexed (init-IsIndexed d init_env m start) run in
      Change-life id p v (handle-Change (answering d answers) s env msg v.own_id h) found

stays_final : {a b : PollStatus} → is_final a ≡ true → (b ≡ a) ⊎ Advances a b → b ≡ a
stays_final final (inl same) = same
stays_final final (inr edge) = cc (not-is_final edge)

pub Reach-final :
    (d : Deps) (s t : Storage) (id : ℕ) (p : Poll)
    → IsIndexed s
    → may_load id s.polls ≡ some p
    → is_final p.status ≡ true
    → Reach d s t
    → (q : Poll) × (may_load id t.polls ≡ some q) × (q.status ≡ p.status)
Reach-final d s _ id p v found final here = (p, found, refl)
Reach-final d s _ id p v found final (next {t} r answers env m _ h) =
    let (q, there, same) = Reach-final d s t id p v found final r in
    let indexed = Reach-IsIndexed v r in
    let (q', after, _, moved) =
      Change-life id q indexed (handle-Change (answering d answers) t env m indexed.own_id h)
        there in
    (q', after, stays_final (rw same final) moved ∙ same)

-- In every state that any sequence of successful messages reaches from `init`, a rejected,
-- executed or expired poll keeps that status whatever messages succeed after it.
pub final_forever :
    (d : Deps) (init_env : Env) (m : InitMsg) (fresh s t : Storage) (id : ℕ) (p : Poll)
    → init d init_env m ≡ ok fresh
    → Reach d fresh s
    → may_load id s.polls ≡ some p
    → is_final p.status ≡ true
    → Reach d s t
    → (q : Poll) × (may_load id t.polls ≡ some q) × (q.status ≡ p.status)
final_forever d init_env m fresh s t id p start run found final later =
    Reach-final d s t id p (Reach-IsIndexed (init-IsIndexed d init_env m start) run) found final
      later
