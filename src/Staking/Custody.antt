-- ===== src/Staking/Custody.antt =====
-- The staked tokens of an account over any sequence of messages.
use text.Mathlib.Text.{◌==◌ as str_eq}
use text.Mathlib.TextEquality.{eq_iff}
use anchor_token_contracts.Base.{
  ℕ, ◌+◌, ◌-◌, ◌≡◌, ◌≤◌, Option, Result, ok, err, arith, Bool, false, ◌==◌, if◌then◌else◌, ap, refl,
  true, some, [], ◌∷◌, ◌&&◌, ℕ_discrete, List,
}
use anchor_token_contracts.Base.Buckets.{may_load}
use anchor_token_contracts.Cosmwasm.{
  Deps, Env, HandleResponse, HumanAddr, CanonicalAddr, IsCosmwasm, Cw20ReceiveMsg, CosmosMsg,
  transfer,
}
use anchor_token_contracts.Staking.Types.{Storage, Slot, Config, State}
use anchor_token_contracts.Staking.Contract.{
  Cw20HookMsg, HandleMsg, receive, unbonds, withdraws, receive_cw20, run_hook, bond, handle, init,
}
use anchor_token_contracts.Staking.Effects.{unbond_messages}
use anchor_token_contracts.Staking.Settlement.{handle-Settles}
use anchor_token_contracts.Staking.Solvency.{init_effect}
use anchor_token_contracts.Staking.Ledger.{Ledger, set, post, view, post-view}

abbrev is_account : Deps → HumanAddr → CanonicalAddr → Bool
is_account d a account = elim (d.canonical_address a) [ ok key ↦ key == account | err e ↦ false ]

-- The tokens that a message brings for an account.
abbrev pub staked_by : Deps → CanonicalAddr → HandleMsg → ℕ
staked_by d account (receive m) = if is_account d m.cw20_sender account then m.cw20_amount else 0
staked_by d account (unbonds amount) = 0
staked_by d account withdraws = 0

-- The tokens of one token contract that messages transfer to an account.
abbrev pub sent_to : Deps → HumanAddr → CanonicalAddr → List CosmosMsg → ℕ
sent_to d token account [] = 0
sent_to d token account (m ∷ l) =
    elim m.msg [
      | transfer to amount ↦
          if str_eq m.contract_addr token && is_account d to account then amount else 0
      | _ ↦ 0
    ]
    + sent_to d token account l

-- The staked tokens that the answer to a message sends back to an account. A withdrawal sends
-- rewards, which may be of the same token.
abbrev pub returned_by : Deps → HumanAddr → CanonicalAddr → HandleMsg → HandleResponse → ℕ
returned_by d token account (receive m) r = sent_to d token account r.messages
returned_by d token account (unbonds amount) r = sent_to d token account r.messages
returned_by d token account withdraws r = 0

-- Messages that succeed, with what they have brought for an account and sent back to it.
pub data History (d : Deps) (s : Storage) (token : HumanAddr) (account : CanonicalAddr)
    : ℕ → ℕ → Storage → Type 0 where
  nothing_yet : History d s token account 0 0 s
  and_then :
      {staked returned : ℕ} {t u : Storage}
      → History d s token account staked returned t
      → (env : Env) (m : HandleMsg) (r : HandleResponse) → handle d t env m ≡ ok (u, r)
      → History d s token account
          (staked + staked_by d account m)
          (returned + returned_by d token account m r)
          u

-- The configuration is stored, and so is some state.
abbrev HasConfig : Config → Storage → Type 0
HasConfig config s = (s.config ≡ some config) × (state : State) × (s.state ≡ some state)

ok-injective : {l l' : Ledger} → ◌≡◌ {A = Result Ledger} (ok l) (ok l') → l ≡ l'
ok-injective h = ground arith

credit :
    (named : Bool) (key account : CanonicalAddr) (l l' : Ledger) (n : ℕ)
    → named ≡ (key == account)
    → l' account ≡ set key (l key + n) l account
    → l' account + 0 ≡ l account + (if named then n else 0)
credit named key account l l' n is e = elim (ℕ_discrete key account) [
  | yes same ↦ ground (arith, ap l same)
  | no other ↦ ground arith
]

debit :
    (named : Bool) (key account : CanonicalAddr) (l l' : Ledger) (n : ℕ)
    → named ≡ (key == account)
    → n ≤ l key
    → l' account ≡ set key (l key - n) l account
    → l' account + (if named then n else 0) ≡ l account + 0
debit named key account l l' n is enough e = elim (ℕ_discrete key account) [
  | yes same ↦ ground (arith, ap l same)
  | no other ↦ ground arith
]

module _ {d : Deps} (laws : IsCosmwasm d) where
  received :
      (env : Env) (m : Cw20ReceiveMsg (Option Cw20HookMsg)) (l l' : Ledger)
      → post d env (receive m) l ≡ ok l'
      → (key : CanonicalAddr) × (d.canonical_address m.cw20_sender ≡ ok key)
        × (l' ≡ set key (l key + m.cw20_amount) l)
  received env m l l' h = ground arith

  debited :
      (env : Env) (amount : ℕ) (l l' : Ledger)
      → post d env (unbonds amount) l ≡ ok l'
      → (key : CanonicalAddr) × (d.canonical_address env.sender ≡ ok key)
        × (amount ≤ l key)
        × (l' ≡ set key (l key - amount) l)
  debited env amount l l' h = ground arith

  same_text : (a : HumanAddr) → str_eq a a ≡ true
  same_text a = (eq_iff a a).1 refl

  bond_sends :
      (s : Storage) (env : Env) (m : Cw20ReceiveMsg (Option Cw20HookMsg)) {s' : Storage}
      {r : HandleResponse}
      → receive_cw20 d s env m ≡ ok (s', r)
      → r.messages ≡ []
  unfolding receive_cw20 run_hook bond
  bond_sends s env m h = ground arith

  handle-HasConfig :
      (config : Config) (s : Storage) (env : Env) (m : HandleMsg) {s' : Storage}
      {r : HandleResponse}
      → HasConfig config s
      → handle d s env m ≡ ok (s', r)
      → HasConfig config s'
  handle-HasConfig config s env m (conf, state, stored) h =
      let (key, total, state', computed, info, settled, final, forget, index, pending, empty, e) =
        handle-Settles d s env m config state conf stored h in
      (rw e conf, record state' { total_bond_amount = total }, rw e refl)

  balanced :
      (token : HumanAddr) (account : CanonicalAddr) (config : Config) (s : Storage) (env : Env)
      (m : HandleMsg) {s' : Storage} {r : HandleResponse}
      → s.config ≡ some config
      → d.human_address config.staking_token ≡ ok token
      → handle d s env m ≡ ok (s', r)
      → view s' account + returned_by d token account m r ≡ view s account + staked_by d account m
  unfolding handle
  balanced token account config s env (receive m) {s'} conf named h =
      let (key, known, e) =
        received env m (view s) (view s') (post-view laws s env (receive m) h) in
      rw (bond_sends s env m h) (
        credit (is_account d m.cw20_sender account) key account (view s) (view s') m.cw20_amount
          (ground (arith, known)) (ap (λ l. l account) e))
  balanced token account config s env (unbonds amount) {s'} conf named h =
      let (key, known, enough, e) =
        debited env amount (view s) (view s') (post-view laws s env (unbonds amount) h) in
      let sent = unbond_messages d s env amount config token conf named h in
      let paid =
        debit (is_account d env.sender account) key account (view s) (view s') amount
          (ground (arith, known)) enough (ap (λ l. l account) e) in
      rw (sent, same_text token) (omega (arith, paid))
  balanced token account config s env withdraws {s'} conf named h =
      let same : view s ≡ view s' = ok-injective (post-view laws s env withdraws h) in
      omega (arith, ap (λ l. l account) same)

  History-balanced :
      (token : HumanAddr) (account : CanonicalAddr) (config : Config) (s : Storage)
      (staked returned : ℕ) (u : Storage)
      → HasConfig config s
      → view s account ≡ 0
      → d.human_address config.staking_token ≡ ok token
      → History d s token account staked returned u
      → HasConfig config u × (view u account + returned ≡ staked)
  History-balanced token account config s _ _ u c empty named nothing_yet =
      (c, omega (arith, empty))
  History-balanced token account config s _ _ u c empty named
        (and_then {staked} {returned} {t} run env m r h) =
      let (kept, even) =
        History-balanced token account config s staked returned t c empty named run in
      (
        handle-HasConfig config t env m kept h,
        omega (arith, even, balanced token account config t env m kept.0 named h),
      )

  init-HasConfig :
      (env : Env) (a t : HumanAddr) (schedule : List Slot) (s : Storage) (account : CanonicalAddr)
      → init d env a t schedule ≡ ok s
      → (config : Config) × (d.canonical_address t ≡ ok config.staking_token)
        × HasConfig config s
        × (view s account ≡ 0)
  unfolding may_load
  init-HasConfig env a t schedule s account h =
      let (anchor, _, staked, known, e) = init_effect laws env a t schedule h in
      (
        record { anchor_token = anchor; staking_token = staked; distribution_schedule = schedule },
        known,
        rw e (
          refl,
          record {
            last_distributed = env.block_height;
            total_bond_amount = 0;
            global_reward_index = 0;
          },
          refl,
        ),
        rw e refl,
      )

  -- A fresh contract holds nothing of anybody. From there on, whatever messages succeed: the
  -- bond of an account and the tokens that bonding and unbonding have sent back to it, counting
  -- only transfers of the staking token that `init` was given and only those to the account, come
  -- to exactly the tokens that were staked for it.
  pub bond_backed :
      (env : Env) (a t : HumanAddr) (schedule : List Slot) (s : Storage) (token : HumanAddr)
      (key account : CanonicalAddr) (staked returned : ℕ) (u : Storage)
      → init d env a t schedule ≡ ok s
      → d.canonical_address t ≡ ok key
      → d.human_address key ≡ ok token
      → History d s token account staked returned u
      → view u account + returned ≡ staked
  bond_backed env a t schedule s token key account staked returned u h known named run =
      let (config, token_is, stored, empty) = init-HasConfig env a t schedule s account h in
      let same : d.human_address config.staking_token ≡ ok token =
        ground (arith, known, named, token_is) in
      (History-balanced token account config s staked returned u stored empty same run).1
