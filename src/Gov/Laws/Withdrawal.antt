-- ===== src/Gov/Laws/Withdrawal.antt =====
-- `withdraw_voting_tokens`: the locks are respected, and what a withdrawal costs in shares.
use native.Mathlib.Nat.{
  div-mul-le_self, mul-le-mul_right, le-div_iff_mul-le, le_trans, div-add-mod, mod-lt,
}
use anchor_token_contracts.Base.{
  ℕ, zero, suc, ◌+◌, ◌-◌, ◌*◌, ◌/◌, ◌≤◌, ◌<◌, ◌≡◌, ◌≢◌, refl, Bool, true, false, Option, some, ok,
  arith, ◌∙◌, ap, List, [], ◌∷◌, if◌then◌else◌, get_elem?, max, ◌⊎◌, inl, inr, subst, Result-cases,
}
use anchor_token_contracts.Base.Buckets.{Bucket, save, may_load, may_load-save}
use anchor_token_contracts.Cosmwasm.{
  Deps, Env, HandleResponse, CanonicalAddr, HumanAddr, IsCosmwasm,
}
use anchor_token_contracts.Cosmwasm.Laws.{sub_value, ratio_value}
use anchor_token_contracts.Gov.Types.{
  Storage, State, Config, Poll, VoterInfo, TokenManager, in_progress, is_status, contract_balance,
  remove_voter,
}
use anchor_token_contracts.Gov.Staking.{
  release_votes, largest_vote, withdraw_voting_tokens, share_to_withdraw,
}
use anchor_token_contracts.Gov.Effects.Shares.{release_votes_rest, withdraw_effect, pay_out_effect}

removal-polls :
    (j : ℕ) (key : CanonicalAddr) (keep : Bool) (s : Storage)
    → (if keep then s else remove_voter j key s).polls ≡ s.polls
removal-polls j key true s = refl
removal-polls j key false s = refl

largest-le :
    (keep : Bool) (j : ℕ) (w : VoterInfo) (rest : List (ℕ × VoterInfo))
    → largest_vote rest ≤ largest_vote (if keep then (j, w) ∷ rest else rest)
unfolding largest_vote
largest-le true j w rest = omega arith
largest-le false j w rest = omega arith

-- A vote on a poll in progress is kept, so the largest vote is no less.
vote-le-largest :
    (key : CanonicalAddr) (votes : List (ℕ × VoterInfo)) (s : Storage)
    (r : List (ℕ × VoterInfo) × Storage) (i id : ℕ) (v : VoterInfo) (p : Poll)
    → release_votes key votes s ≡ ok r
    → get_elem? votes i ≡ some (id, v)
    → may_load id s.polls ≡ some p
    → p.status ≡ in_progress
    → v.balance ≤ largest_vote r.0
unfolding largest_vote
vote-le-largest key [] s r i id v p h at_i found is = cc
vote-le-largest key ((j, w) ∷ votes) s r zero id v p h at_i found is =
    let (q, at_j, rest, e, whole) = release_votes_rest key j w votes s h in rw whole (ground arith)
vote-le-largest key ((j, w) ∷ votes) s r (suc i) id v p h at_i found is =
    let (q, at_j, rest, e, whole) = release_votes_rest key j w votes s h in
    let keep = is_status q.status in_progress in
    rw whole (
      le_trans
        (vote-le-largest key votes (if keep then s else remove_voter j key s) rest i id v p e at_i
          (ap (may_load id) (removal-polls j key keep s) ∙ found) is)
        (largest-le keep j w rest.0))

kept_at :
    (keep : Bool) (e x : ℕ × VoterInfo) (rest : List (ℕ × VoterInfo)) (k : ℕ)
    → get_elem? rest k ≡ some x
    → (n : ℕ) × (get_elem? (if keep then e ∷ rest else rest) n ≡ some x)
kept_at true e x rest k h = (suc k, h)
kept_at false e x rest k h = (k, h)

-- A vote on a poll in progress stays among the locked ones.
vote-kept :
    (key : CanonicalAddr) (votes : List (ℕ × VoterInfo)) (s : Storage)
    (r : List (ℕ × VoterInfo) × Storage) (i id : ℕ) (v : VoterInfo) (p : Poll)
    → release_votes key votes s ≡ ok r
    → get_elem? votes i ≡ some (id, v)
    → may_load id s.polls ≡ some p
    → p.status ≡ in_progress
    → (n : ℕ) × (get_elem? r.0 n ≡ some (id, v))
vote-kept key [] s r i id v p h at_i found is = cc
vote-kept key ((j, w) ∷ votes) s r zero id v p h at_i found is =
    let (q, at_j, rest, e, whole) = release_votes_rest key j w votes s h in
    rw whole (0, ground arith)
vote-kept key ((j, w) ∷ votes) s r (suc i) id v p h at_i found is =
    let (q, at_j, rest, e, whole) = release_votes_rest key j w votes s h in
    let keep = is_status q.status in_progress in
    let (n, kept) =
      vote-kept key votes (if keep then s else remove_voter j key s) rest i id v p e at_i
        (ap (may_load id) (removal-polls j key keep s) ∙ found) is in
    rw whole (kept_at keep (j, w) (id, v) rest.0 n kept)

left_stored :
    (key key' : CanonicalAddr) (m : TokenManager) (b : Bucket TokenManager)
    → key ≡ key'
    → may_load key (save key' m b) ≡ some m
left_stored key key' m b same = ground (arith, may_load-save key' key m b)

div_mono : (a b k : ℕ) → k ≢ 0 → a ≤ b → a / k ≤ b / k
div_mono a b k pos h = (le-div_iff_mul-le (omega arith)).1 (le_trans (div-mul-le_self a k) h)

pub rounded_down : (x b : ℕ) → b ≢ 0 → (x / b * b ≤ x) × (x < (x / b + 1) * b)
rounded_down x b pos =
    (div-mul-le_self x b, omega (arith, div-add-mod x b, mod-lt x {m = b} (omega arith)))

-- What the rounding down of a price leaves open is less than one more.
covered_within : (x b q : ℕ) → b ≢ 0 → x / b ≤ q → x < (q + 1) * b
covered_within x b q pos h =
    let (_, above) = rounded_down x b pos in
    let more = mul-le-mul_right b (add_le_one (x / b) q h) in omega (arith, above, more)
  where
    add_le_one : (m n : ℕ) → m ≤ n → m + 1 ≤ n + 1
    add_le_one m n k = omega (arith, k)

share_floor :
    (x b q : ℕ)
    → q * b ≤ x
    → x < (q + 1) * b
    → (x < (max q 1 + 1) * b) × ((max q 1 * b ≤ x) ⊎ (max q 1 ≡ 1))
share_floor x b zero low high = (omega arith, inr refl)
share_floor x b (suc q) low high =
    let same : max (suc q) 1 ≡ suc q = omega arith in (rw same high', rw same (inl low))
  where
    high' : x < (suc q + 1) * b
    high' = high

share_rounding :
    (x b : ℕ)
    → b ≢ 0
    → (x < (max (x / b) 1 + 1) * b) × ((max (x / b) 1 * b ≤ x) ⊎ (max (x / b) 1 ≡ 1))
share_rounding x b pos = let (low, high) = rounded_down x b pos in share_floor x b (x / b) low high

abbrev pub LeavesLocked : Deps → Storage → CanonicalAddr → ℕ → VoterInfo → Storage → Type 0
LeavesLocked d s key id v s' =
    (state : State) × (s.state ≡ some state)
    × (config : Config) × (s.config ≡ some config)
    × (balance : ℕ) × (contract_balance d config state ≡ ok balance)
    × (left : TokenManager) × (may_load key s'.bank ≡ some left)
    × (n : ℕ) × (get_elem? left.locked_balance n ≡ some (id, v))
    × (v.balance * state.total_share < (left.share + 1) * (balance - state.total_deposit))

module _ (d : Deps) (laws : IsCosmwasm d) where
  share_to_withdraw_value :
      (v user locked total balance : ℕ) {w : ℕ}
      → share_to_withdraw d (some v) user locked total balance ≡ ok w
      → (balance ≢ 0) × (w ≡ max (v * total / balance) 1)
  unfolding share_to_withdraw
  share_to_withdraw_value v user locked total balance h =
      elim (Result-cases (d.multiply_ratio v total balance)) [
        | inl (share, e) ↦
            let (pos, price) = ratio_value laws v total balance e in (pos, ground arith)
        | inr (bad, e) ↦ cc (rw (e, share_to_withdraw) at h)
      ]

  -- What a withdrawal of `v` tokens costs: the shares for `v` rounded down, but at least one.
  -- So the tokens paid out are less than what one more share than those given up is worth, and
  -- at least one share is given up.
  pub share_to_withdraw_bounds :
      (v user locked total balance : ℕ) {w : ℕ}
      → share_to_withdraw d (some v) user locked total balance ≡ ok w
      → (1 ≤ w) × (v * total < (w + 1) * balance) × ((w * balance ≤ v * total) ⊎ (w ≡ 1))
  share_to_withdraw_bounds v user locked total balance h =
      let (pos, e) = share_to_withdraw_value v user locked total balance h in
      let (above, below) = share_rounding (v * total) balance pos in
      (rw e (omega arith), rw e above, rw e below)

  pub same_key :
      {a : HumanAddr} (key key' : CanonicalAddr)
      → d.canonical_address a ≡ ok key
      → d.canonical_address a ≡ ok key'
      → key ≡ key'
  same_key key key' k k' = ground arith

  -- After a withdrawal every vote of the account on a poll in progress is still locked, and it is
  -- less than what the share that is left and one share more were worth before the withdrawal.
  pub withdraw_respects_locks :
      (s : Storage) (env : Env) (amount : Option ℕ) (key i id : ℕ) (manager : TokenManager)
      (v : VoterInfo) (p : Poll) {s' : Storage} {r : HandleResponse}
      → withdraw_voting_tokens d s env amount ≡ ok (s', r)
      → d.canonical_address env.sender ≡ ok key
      → may_load key s.bank ≡ some manager
      → get_elem? manager.locked_balance i ≡ some (id, v)
      → may_load id s.polls ≡ some p
      → p.status ≡ in_progress
      → LeavesLocked d s key id v s'
  withdraw_respects_locks s env amount key i id manager v p h k found at_i poll is =
      let (
        key', k', manager', found', config, conf, state, stored, balance, read, total, subtracted,
        votes, released, share, _, out, _, pos, paid,
      ) =
        withdraw_effect d s env amount h in
      let (enough, _, _, e) = pay_out_effect d votes.1 config state _ key' _ share out paid in
      let (_, total_is) = sub_value laws balance state.total_deposit subtracted in
      let same_manager : manager ≡ manager' = ground arith in
      let manager_is = subst (λ m. get_elem? m.locked_balance i ≡ some (id, v)) same_manager at_i in
      let largest =
        vote-le-largest key' manager'.locked_balance s votes i id v p released manager_is poll is in
      let covered : v.balance * state.total_share / total ≤ manager'.share - share =
        le_trans (div_mono _ _ total pos (mul-le-mul_right state.total_share largest))
          (omega (arith, enough)) in
      let (n, kept) =
        vote-kept key' manager'.locked_balance s votes i id v p released manager_is poll is in
      let within =
        covered_within (v.balance * state.total_share) total (manager'.share - share) pos covered in
      let left : TokenManager = record {
        share = manager'.share - share;
        locked_balance = votes.0;
      } in
      (
        state,
        stored,
        config,
        conf,
        balance,
        read,
        left,
        rw e (left_stored key key' left votes.1.bank (same_key key key' k k')),
        n,
        kept,
        subst (λ t. v.balance * state.total_share < (manager'.share - share + 1) * t) total_is
            within,
      )
