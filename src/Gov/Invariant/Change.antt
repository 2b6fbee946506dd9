-- ===== src/Gov/Invariant/Change.antt =====
-- The four ways in which a message changes the polls.
use anchor_token_contracts.Base.{
  ℕ, ◌+◌, ◌≡◌, ◌≢◌, Bool, true, Option, none, some, if◌then◌else◌, List,
}
use anchor_token_contracts.Base.Buckets.{may_load, save, remove}
use anchor_token_contracts.Gov.Types.{
  Storage, State, Poll, PollStatus, in_progress, passed, rejected, executed, expired, is_status,
}

abbrev pub count_of : Option State → ℕ
count_of none = 0
count_of (some state) = state.poll_count

-- The edges of the life of a poll.
pub data Advances : PollStatus → PollStatus → Type 0 where
  passes : Advances in_progress passed
  fails : Advances in_progress rejected
  executes : Advances passed executed
  expires : Advances passed expired

-- What no message changes in a poll: a snapshot, once taken, included.
pub record SamePoll (p q : Poll) : Type 0 where
  pub same_id : q.id ≡ p.id
  pub same_creator : q.creator ≡ p.creator
  pub same_end_height : q.end_height ≡ p.end_height
  pub same_title : q.title ≡ p.title
  pub same_description : q.description ≡ p.description
  pub same_link : q.link ≡ p.link
  pub same_execute_data : q.execute_data ≡ p.execute_data
  pub same_deposit : q.deposit_amount ≡ p.deposit_amount
  pub keeps_snapshot : p.staked_amount ≢ none → q.staked_amount ≡ p.staked_amount

abbrev pub reindex : PollStatus → PollStatus → ℕ → Storage → PollStatus → List (ℕ × Bool)
reindex old new id s t =
    let rest = if is_status old t then remove id (s.poll_indexer t) else s.poll_indexer t in
    if is_status new t then save id true rest else rest

pub data Change (s s' : Storage) : Type 0 where
  keeps :
      s'.polls ≡ s.polls
      → s'.poll_indexer ≡ s.poll_indexer
      → count_of s'.state ≡ count_of s.state
      → Change s s'
  creates :
      (p : Poll)
      → p.id ≡ count_of s.state + 1
      → p.status ≡ in_progress
      → s'.polls ≡ save p.id p s.polls
      → s'.poll_indexer ≡ (λ t.
        if is_status in_progress t then save p.id true (s.poll_indexer t) else s.poll_indexer t)
      → count_of s'.state ≡ p.id
      → Change s s'
  revises :
      (id : ℕ) (p q : Poll)
      → may_load id s.polls ≡ some p
      → p.status ≡ in_progress
      → q.status ≡ in_progress
      → SamePoll p q
      → s'.polls ≡ save id q s.polls
      → s'.poll_indexer ≡ s.poll_indexer
      → count_of s'.state ≡ count_of s.state
      → Change s s'
  moves :
      (id : ℕ) (p q : Poll)
      → may_load id s.polls ≡ some p
      → Advances p.status q.status
      → SamePoll p q
      → s'.polls ≡ save id q s.polls
      → s'.poll_indexer ≡ reindex p.status q.status id s
      → count_of s'.state ≡ count_of s.state
      → Change s s'
