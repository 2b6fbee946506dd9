-- ===== src/Gov/Laws/Execution.antt =====
-- `execute_poll`: when a poll may be executed, and the messages that it sends.
use mathlib.Core.List.{Perm}
use mathlib.Core.List.Perm
use anchor_token_contracts.Base.{
  ℕ, ◌+◌, ◌≤◌, ◌≡◌, refl, Option, none, some, ok, arith, List, [], ◌∷◌, leb, collect, All,
  Bool-cases, inl, inr,
}
use anchor_token_contracts.Base.Buckets.{may_load, may_load-save}
use anchor_token_contracts.Cosmwasm.{Deps, Env, HandleResponse, CosmosMsg}
use anchor_token_contracts.Gov.Types.{Storage, Config, Poll, ExecuteData, passed, executed}
use anchor_token_contracts.Gov.Polls.Close.{
  insert_by_order, sort_by_order, message_of, execution_messages, execute_poll, move_passed,
}

abbrev pub IsOrdered : List ExecuteData → Type 0
IsOrdered [] = Unit
IsOrdered (m ∷ ms) = All (λ n. m.order ≤ n.order) ms × IsOrdered ms

insert_by_order-perm :
    (m : ExecuteData) (ms : List ExecuteData) → Perm (insert_by_order m ms) (m ∷ ms)
unfolding insert_by_order
insert_by_order-perm m [] = Perm.refl _
insert_by_order-perm m (n ∷ ns) = elim (Bool-cases (leb m.order n.order)) [
  | inl first ↦ rw first (Perm.refl _)
  | inr later ↦ rw later (Perm.trans (Perm.cons n (insert_by_order-perm m ns)) (Perm.swap m n ns))
]

sort_by_order-perm : (ms : List ExecuteData) → Perm (sort_by_order ms) ms
unfolding sort_by_order
sort_by_order-perm [] = Perm.refl _
sort_by_order-perm (m ∷ ms) =
    Perm.trans (insert_by_order-perm m (sort_by_order ms)) (Perm.cons m (sort_by_order-perm ms))

All-le_trans :
    (a b : ℕ) (ms : List ExecuteData)
    → a ≤ b
    → All (λ n. b ≤ n.order) ms
    → All (λ n. a ≤ n.order) ms
All-le_trans a b [] h all = tt
All-le_trans a b (m ∷ ms) h all = (omega arith, All-le_trans a b ms h all.1)

All-insert :
    (a : ℕ) (m : ExecuteData) (ms : List ExecuteData)
    → a ≤ m.order
    → All (λ n. a ≤ n.order) ms
    → All (λ n. a ≤ n.order) (insert_by_order m ms)
unfolding insert_by_order
All-insert a m [] h all = (h, tt)
All-insert a m (n ∷ ns) h all = ground (arith, All-insert a m ns h all.1)

insert-IsOrdered :
    (m : ExecuteData) (ms : List ExecuteData) → IsOrdered ms → IsOrdered (insert_by_order m ms)
unfolding insert_by_order
insert-IsOrdered m [] o = (tt, tt)
insert-IsOrdered m (n ∷ ns) o =
    ground
      (arith, insert-IsOrdered m ns o.1, All-insert n.order m ns, All-le_trans m.order n.order ns)

sort-IsOrdered : (ms : List ExecuteData) → IsOrdered (sort_by_order ms)
unfolding sort_by_order
sort-IsOrdered [] = tt
sort-IsOrdered (m ∷ ms) = insert-IsOrdered m (sort_by_order ms) (sort-IsOrdered ms)

abbrev pub Executed : Deps → Storage → Env → ℕ → Storage → HandleResponse → Type 0
Executed d s env id s' r =
    (p : Poll) × (may_load id s.polls ≡ some p)
    × (config : Config) × (s.config ≡ some config)
    × (p.status ≡ passed)
    × (p.end_height + config.timelock_period ≤ env.block_height)
    × (may_load id s'.polls ≡ some (record p { status = executed }))
    × (ms : List ExecuteData) × (p.execute_data ≡ some ms)
    × (sorted : List ExecuteData) × Perm sorted ms
    × IsOrdered sorted
    × (collect (message_of d) sorted ≡ ok r.messages)

module _ (d : Deps) where
  execute_poll_facts :
      (s : Storage) (env : Env) (id : ℕ) {s' : Storage} {r : HandleResponse}
      → execute_poll d s env id ≡ ok (s', r)
      → (p : Poll) × (may_load id s.polls ≡ some p)
        × (config : Config) × (s.config ≡ some config)
        × (p.status ≡ passed)
        × (p.end_height + config.timelock_period ≤ env.block_height)
        × (execution_messages d p.execute_data ≡ ok r.messages)
        × (s' ≡ move_passed id p executed s)
  unfolding execute_poll
  execute_poll_facts s env id h = ground arith

  execution_messages_sorted :
      (o : Option (List ExecuteData)) {sent : List CosmosMsg}
      → execution_messages d o ≡ ok sent
      → (ms : List ExecuteData) × (o ≡ some ms)
        × (collect (message_of d) (sort_by_order ms) ≡ ok sent)
  unfolding execution_messages
  execution_messages_sorted none h = cc
  execution_messages_sorted (some ms) h = (ms, refl, h)

  -- A poll is executed only if it has passed, its timelock is over and it carries messages. It
  -- then sends each of them once, in ascending order of their numbers, and is marked executed.
  pub execute_poll_sends :
      (s : Storage) (env : Env) (id : ℕ) {s' : Storage} {r : HandleResponse}
      → execute_poll d s env id ≡ ok (s', r)
      → Executed d s env id s' r
  execute_poll_sends s env id h =
      let (p, found, config, conf, was, over, sent, e) = execute_poll_facts s env id h in
      let (ms, carried, collected) = execution_messages_sorted p.execute_data sent in
      (
        p,
        found,
        config,
        conf,
        was,
        over,
        rw e (ground (arith, may_load-save id id (record p { status = executed }) s.polls)),
        ms,
        carried,
        sort_by_order ms,
        sort_by_order-perm ms,
        sort-IsOrdered ms,
        collected,
      )
