-- ===== src/Gov/Laws/Listing.antt =====
-- The list of polls by status.
use anchor_token_contracts.Base.{
  ℕ, ◌≡◌, ◌≢◌, refl, Option, none, some, ok, arith, List, [], ◌∷◌, Bool, true, All, collect,
  Option-cases, inl, inr, subst, sym, ap, ◌∙◌, suc, length, min, unwrap_or,
}
use anchor_token_contracts.Base.Buckets.{Bucket, may_load}
use anchor_token_contracts.Cosmwasm.{Deps, Env, OrderBy}
use anchor_token_contracts.Paging.Entries.{
  Has, Has-page, is_past, count_past, page-past, length-page,
}
use anchor_token_contracts.Gov.Types.{Storage, Poll, PollStatus, is_status}
use anchor_token_contracts.Gov.Settings.{InitMsg, init}
use anchor_token_contracts.Gov.Queries.{read_polls, load_entry}
use anchor_token_contracts.Gov.Invariant.Index.{IsIndexed, Reach, Reach-IsIndexed, init-IsIndexed}

-- A stored poll with the status.
abbrev pub IsListed : Storage → PollStatus → Poll → Type 0
IsListed s st p = (may_load p.id s.polls ≡ some p) × (p.status ≡ st)

same_status : (a b : PollStatus) → is_status a b ≡ true → a ≡ b
same_status a b h = ground arith

-- An id in the indexer of a status is that of a stored poll with the status.
entry-IsListed :
    (s : Storage) (st : PollStatus) (id : ℕ)
    → IsIndexed s
    → may_load id (s.poll_indexer st) ≢ none
    → (p : Poll) × (may_load id s.polls ≡ some p) × IsListed s st p
entry-IsListed s st id v has = elim (Option-cases (may_load id s.polls)) [
  | inl missing ↦ absurd (has (ground (arith, v.indexed st id, missing)))
  | inr (p, found) ↦
      let own = v.own_id id p found in
      let is : is_status p.status st ≡ true = ground (arith, v.indexed st id, found, has) in
      (
        p,
        found,
        (subst (λ i. may_load i s.polls ≡ some p) (sym own) found, same_status p.status st is),
      )
]

-- A stored poll with the status, with an id on the asked side of the start.
abbrev pub IsShown : Storage → PollStatus → Option OrderBy → Option ℕ → Poll → Type 0
IsShown s st order_by start p = IsListed s st p × (is_past order_by start p.id ≡ true)

collected :
    (s : Storage) (st : PollStatus) (order_by : Option OrderBy) (start : Option ℕ) (l : Bucket Bool)
    → IsIndexed s
    → All (Has (s.poll_indexer st)) l
    → All (λ e. is_past order_by start e.0 ≡ true) l
    → (polls : List Poll) × (collect (load_entry s) l ≡ ok polls)
      × All (IsShown s st order_by start) polls
      × (length polls ≡ length l)
collected s st order_by start [] v h past = ([], refl, tt, refl)
collected s st order_by start ((id, flag) ∷ l) v h past =
    let (p, found, listed) = entry-IsListed s st id v h.0 in
    let (polls, e, rest, count) = collected s st order_by start l v h.1 past.1 in
    let later : is_past order_by start p.id ≡ true = rw (v.own_id id p found) past.0 in
    (p ∷ polls, rw (found, e) refl, ((listed, later), rest), ap suc count)

-- In every state that any sequence of successful messages reaches from `init`, reading the polls
-- with a status succeeds, whatever the page asked for. It gives only stored polls that have this
-- status, with ids greater than the start in ascending order and less than it otherwise, and as
-- many of them as the indexer holds there, up to the limit, which is 10 if none is given and never
-- above 30.
pub polls_by_status :
    (d : Deps) (env : Env) (m : InitMsg) (s t : Storage) (st : PollStatus)
    (start_after limit : Option ℕ) (order_by : Option OrderBy)
    → init d env m ≡ ok s
    → Reach d s t
    → (polls : List Poll) × (read_polls t (some st) start_after limit order_by ≡ ok polls)
      × All (IsShown t st order_by start_after) polls
      × (length polls
          ≡ min (min (unwrap_or limit 10) 30) (count_past order_by start_after (t.poll_indexer st)))
unfolding read_polls
polls_by_status d env m s t st start_after limit order_by h run =
    let b = t.poll_indexer st in
    let (polls, e, shown, count) =
      collected t st order_by start_after _ (Reach-IsIndexed (init-IsIndexed d env m h) run)
        (Has-page b start_after limit order_by) (page-past order_by start_after limit b) in
    (polls, e, shown, count ∙ length-page order_by start_after limit b)
