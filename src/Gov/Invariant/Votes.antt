-- ===== src/Gov/Invariant/Votes.antt =====
-- The tally of a poll in progress against the votes recorded for it.
use anchor_token_contracts.Base.{
  ℕ, ◌+◌, ◌≡◌, ◌≢◌, refl, none, some, arith, true, false, if◌then◌else◌, ◌==◌, ◌⊎◌, inl, inr, [],
  ℕ_discrete,
}
use anchor_token_contracts.Base.Buckets.{Bucket, may_load, save, may_load-save}
use anchor_token_contracts.Base.Sums.{Ascending, sum_by, weight, save-Ascending, sum_by-save}
use anchor_token_contracts.Cosmwasm.{CanonicalAddr}
use anchor_token_contracts.Gov.Types.{Storage, Poll, VoterInfo, in_progress, is_yes}

abbrev pub yes_of : VoterInfo → ℕ
yes_of v = if is_yes v.vote then v.balance else 0

abbrev pub no_of : VoterInfo → ℕ
no_of v = if is_yes v.vote then 0 else v.balance

-- The tally of a poll is the sum of the votes of its voters.
pub record Matches (p : Poll) (voters : Bucket VoterInfo) : Type 0 where
  pub ascending : Ascending voters
  pub yes_sum : p.yes_votes ≡ sum_by yes_of voters
  pub no_sum : p.no_votes ≡ sum_by no_of voters

-- Every poll in progress is tallied, and what is no poll has no voters.
pub record IsTallied (s : Storage) : Type 0 where
  pub tallied :
      (id : ℕ) (p : Poll)
      → may_load id s.polls ≡ some p
      → p.status ≡ in_progress
      → Matches p (s.poll_voters id)
  pub unvoted : (id : ℕ) → may_load id s.polls ≡ none → s.poll_voters id ≡ []

-- The ways in which a message changes the polls and the voters.
pub data VoteChange (s s' : Storage) : Type 0 where
  releases :
      s'.polls ≡ s.polls
      → ((id : ℕ) (p : Poll)
          → may_load id s.polls ≡ some p
          → p.status ≡ in_progress
          → s'.poll_voters id ≡ s.poll_voters id)
      → ((id : ℕ) → may_load id s.polls ≡ none → s'.poll_voters id ≡ s.poll_voters id)
      → VoteChange s s'
  creates :
      (id : ℕ) (q : Poll)
      → may_load id s.polls ≡ none
      → q.yes_votes ≡ 0
      → q.no_votes ≡ 0
      → s'.polls ≡ save id q s.polls
      → s'.poll_voters ≡ s.poll_voters
      → VoteChange s s'
  stores :
      (id : ℕ) (p q : Poll)
      → may_load id s.polls ≡ some p
      → (q.status ≡ in_progress
          → (p.status ≡ in_progress) × (q.yes_votes ≡ p.yes_votes) × (q.no_votes ≡ p.no_votes))
      → s'.polls ≡ save id q s.polls
      → s'.poll_voters ≡ s.poll_voters
      → VoteChange s s'
  counts :
      (id : ℕ) (p q : Poll) (key : CanonicalAddr) (v : VoterInfo)
      → may_load id s.polls ≡ some p
      → p.status ≡ in_progress
      → may_load key (s.poll_voters id) ≡ none
      → q.yes_votes ≡ p.yes_votes + yes_of v
      → q.no_votes ≡ p.no_votes + no_of v
      → s'.polls ≡ save id q s.polls
      → s'.poll_voters ≡ (λ j. if id == j then save key v (s.poll_voters j) else s.poll_voters j)
      → VoteChange s s'

added-Matches :
    (p q : Poll) (key : CanonicalAddr) (v : VoterInfo) (b : Bucket VoterInfo)
    → Matches p b
    → may_load key b ≡ none
    → q.yes_votes ≡ p.yes_votes + yes_of v
    → q.no_votes ≡ p.no_votes + no_of v
    → Matches q (save key v b)
added-Matches p q key v b m fresh yes_sum no_sum =
    let with_yes = sum_by-save yes_of key v b m.ascending in
    let with_no = sum_by-save no_of key v b m.ascending in
    let nothing_yes : weight yes_of (may_load key b) ≡ 0 = rw fresh refl in
    let nothing_no : weight no_of (may_load key b) ≡ 0 = rw fresh refl in
    record {
      ascending = save-Ascending key v b m.ascending;
      yes_sum = omega (arith, m.yes_sum, yes_sum, with_yes, nothing_yes);
      no_sum = omega (arith, m.no_sum, no_sum, with_no, nothing_no);
    }

pub ==_refl : (a : ℕ) → (a == a) ≡ true
==_refl a = ground arith

pub ==_ne : (a b : ℕ) → a ≢ b → (a == b) ≡ false
==_ne a b h = ground arith

saved_cases :
    (id i : ℕ) (q p : Poll) (b : Bucket Poll)
    → may_load i (save id q b) ≡ some p
    → ((id ≡ i) × (p ≡ q)) ⊎ ((id ≢ i) × (may_load i b ≡ some p))
saved_cases id i q p b h = elim (ℕ_discrete id i) [
  | yes same ↦ inl (same, ground (arith, may_load-save id i q b))
  | no other ↦ inr (other, ground (arith, may_load-save id i q b))
]

saved_none :
    (id i : ℕ) (q : Poll) (b : Bucket Poll)
    → may_load i (save id q b) ≡ none
    → (id ≢ i) × (may_load i b ≡ none)
saved_none id i q b h = elim (ℕ_discrete id i) [
  | yes same ↦ absurd (ground (arith, may_load-save id i q b))
  | no other ↦ (other, ground (arith, may_load-save id i q b))
]

pub VoteChange-IsTallied : {s s' : Storage} → IsTallied s → VoteChange s s' → IsTallied s'
VoteChange-IsTallied {s} t (releases polls kept missing) = record {
  tallied = λ id p found is.
      let found' : may_load id s.polls ≡ some p = rw polls at found in
      rw (kept id p found' is) (t.tallied id p found' is);
  unvoted = λ id found.
      let found' : may_load id s.polls ≡ none = rw polls at found in
      rw (missing id found') (t.unvoted id found');
}
VoteChange-IsTallied {s} t (creates id q fresh yes_sum no_sum polls voters) = record {
  tallied = λ i p found is. elim (saved_cases id i q p s.polls (rw polls at found)) [
    | inl (same, e) ↦
        rw (voters, ← same, t.unvoted id fresh, e)
          (record { ascending = tt; yes_sum = yes_sum; no_sum = no_sum })
    | inr (other, old) ↦ rw voters (t.tallied i p old is)
  ];
  unvoted = λ i found.
      let (other, old) = saved_none id i q s.polls (rw polls at found) in
      rw voters (t.unvoted i old);
}
VoteChange-IsTallied {s} t (stores id p q found same_tally polls voters) = record {
  tallied = λ i p' found' is. elim (saved_cases id i q p' s.polls (rw polls at found')) [
    | inl (same, e) ↦
        let (was, same_yes, same_no) = same_tally (rw e at is) in
        let m = t.tallied id p found was in
        rw (voters, ← same, e)
          (record {
            ascending = m.ascending;
            yes_sum = omega (arith, same_yes, m.yes_sum);
            no_sum = omega (arith, same_no, m.no_sum);
          })
    | inr (other, old) ↦ rw voters (t.tallied i p' old is)
  ];
  unvoted = λ i found'.
      let (other, old) = saved_none id i q s.polls (rw polls at found') in
      rw voters (t.unvoted i old);
}
VoteChange-IsTallied {s} t (counts id p q key v found is fresh yes_sum no_sum polls voters) =
    record {
      tallied = λ i p' found' is'. elim (saved_cases id i q p' s.polls (rw polls at found')) [
        | inl (same, e) ↦
            rw (voters, ← same, e, ==_refl id)
              (added-Matches p q key v (s.poll_voters id) (t.tallied id p found is) fresh yes_sum
                no_sum)
        | inr (other, old) ↦ rw (voters, ==_ne id i other) (t.tallied i p' old is')
      ];
      unvoted = λ i found'.
          let (other, old) = saved_none id i q s.polls (rw polls at found') in
          rw (voters, ==_ne id i other) (t.unvoted i old);
    }
