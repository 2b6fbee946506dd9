-- ===== src/Vesting/Payments.antt =====
-- What the vesting contract pays an account over a sequence of messages.
use anchor_token_contracts.Base.{
  ℕ, ◌+◌, ◌≤◌, ◌≡◌, refl, Option, some, List, [], ok, arith, ◌==◌, if◌then◌else◌, ℕ_discrete, subst,
}
use anchor_token_contracts.Base.Buckets.{may_load, may_load-save}
use anchor_token_contracts.Cosmwasm.{
  Deps, Env, HandleResponse, CosmosMsg, HumanAddr, CanonicalAddr, IsCosmwasm, paid_in,
}
use anchor_token_contracts.Vesting.Types.{VestingInfo, Config, Storage, store_vesting_info}
use anchor_token_contracts.Vesting.Claims.{compute_claim_amount}
use anchor_token_contracts.Vesting.Contract.{
  HandleMsg, update, register, claims, handle, claim, claim_messages, update_config,
  assert_owner_privilege,
}
use anchor_token_contracts.Linear.{amount_of, vested, vested_bound, vested_mono}
use anchor_token_contracts.Vesting.Release.{claim_amount_bound}

-- Messages that do not register accounts.
abbrev pub KeepsAccounts : HandleMsg → Type 0
KeepsAccounts (register _) = ⊥
KeepsAccounts _ = Unit

-- `Paid d key t s now total s'`: messages at times from `t` on, in order, take `s` to `s'`, and
-- those sent by `key` are answered by transfers of `total` tokens.
pub data Paid (d : Deps) (key : CanonicalAddr) (t : ℕ) (s : Storage)
    : ℕ → ℕ → Storage → Type 0 where
  nothing : Paid d key t s t 0 s
  later :
      {now total : ℕ} {u v : Storage}
      → Paid d key t s now total u
      → (env : Env) (m : HandleMsg) (r : HandleResponse) (sender : CanonicalAddr)
      → now ≤ env.block_time
      → KeepsAccounts m
      → d.canonical_address env.sender ≡ ok sender
      → handle d u env m ≡ ok (v, r)
      → Paid d key t s env.block_time (total + (if sender == key then paid_in r.messages else 0)) v

module _ {d : Deps} (laws : IsCosmwasm d) where
  claim_messages_paid :
      (config : Config) (to : HumanAddr) (amount : ℕ) {l : List CosmosMsg}
      → claim_messages d config to amount ≡ ok l
      → paid_in l ≡ amount
  unfolding claim_messages
  claim_messages_paid config to amount h = ground arith

  pub claim_effect :
      (s : Storage) (env : Env) {s' : Storage} {r : HandleResponse}
      → claim d s env ≡ ok (s', r)
      → (key : CanonicalAddr) × (d.canonical_address env.sender ≡ ok key)
        × (config : Config) × (s.config ≡ some config)
        × (info : VestingInfo) × (may_load key s.vesting_infos ≡ some info)
        × (amount : ℕ) × (compute_claim_amount d env.block_time info ≡ ok amount)
        × (claim_messages d config env.sender amount ≡ ok r.messages)
        × (s' ≡ store_vesting_info key (record info { last_claim_time = env.block_time }) s)
  unfolding claim
  claim_effect s env h = ground arith

  pub update_effect :
      (s : Storage) (env : Env) (o a : Option HumanAddr) (g : Option ℕ) {s' : Storage}
      {r : HandleResponse}
      → handle d s env (update o a g) ≡ ok (s', r)
      → (s'.vesting_infos ≡ s.vesting_infos) × (r.messages ≡ [])
  unfolding handle assert_owner_privilege update_config
  update_effect s env o a g h = (ground arith, ground arith)

  pub claims_effect :
      (s : Storage) (env : Env) {s' : Storage} {r : HandleResponse}
      → handle d s env claims ≡ ok (s', r)
      → claim d s env ≡ ok (s', r)
  unfolding handle
  claims_effect s env h = h

-- The account's entry after the messages: the same schedules, and all that was paid has been
-- released since the first claim time.
abbrev pub Accounted : CanonicalAddr → VestingInfo → ℕ → ℕ → Storage → Type 0
Accounted key first now total s =
    (info : VestingInfo) × (may_load key s.vesting_infos ≡ some info)
    × (info.schedules ≡ first.schedules)
    × (info.last_claim_time ≤ now)
    × (total + vested first.last_claim_time first.schedules
        ≤ vested info.last_claim_time first.schedules)

module _ {d : Deps} (laws : IsCosmwasm d) where
  claim_bound :
      (info first : VestingInfo) (amount now : ℕ)
      → info.schedules ≡ first.schedules
      → info.last_claim_time ≤ now
      → compute_claim_amount d now info ≡ ok amount
      → amount + vested info.last_claim_time first.schedules ≤ vested now first.schedules
  claim_bound info first amount now same le h =
      subst (λ l. amount + vested info.last_claim_time l ≤ vested now l) same
        (claim_amount_bound laws now info le h)

  claim-Accounted :
      (key sender : CanonicalAddr) (first : VestingInfo) (now total : ℕ) (u : Storage) (env : Env)
      {v : Storage} {r : HandleResponse}
      → Accounted key first now total u
      → now ≤ env.block_time
      → d.canonical_address env.sender ≡ ok sender
      → claim d u env ≡ ok (v, r)
      → Accounted key first env.block_time
          (total + (if sender == key then paid_in r.messages else 0))
          v
  claim-Accounted key sender first now total u env (info, found, same, past, sum) le who h =
      let (key', who', config, _, info', found', amount, computed, sent, e) =
        claim_effect laws u env h in
      let paid = claim_messages_paid laws config env.sender amount sent in
      let senders : sender ≡ key' = ground arith in
      elim (ℕ_discrete sender key) [
        | yes own ↦
            let same_info : info' ≡ info = ground (arith, found, found', senders, own) in
            let computed' : compute_claim_amount d env.block_time info ≡ ok amount =
              ground (arith, computed, same_info) in
            let bound = claim_bound info first amount env.block_time same (omega arith) computed' in
            (
              record info { last_claim_time = env.block_time },
              rw e (
                  ground (
                    arith,
                    may_load-save key' key (record info' { last_claim_time = env.block_time })
                        u.vesting_infos,
                  )),
              same,
              omega arith,
              ground arith,
            )
        | no other ↦ (
          info,
          rw e (
              ground (
                arith,
                may_load-save key' key (record info' { last_claim_time = env.block_time })
                    u.vesting_infos,
              )),
          same,
          omega arith,
          ground arith,
        )
      ]

  Paid-Accounted :
      (key : CanonicalAddr) (info : VestingInfo) (t : ℕ) (s : Storage) {now total : ℕ}
      {s' : Storage}
      → may_load key s.vesting_infos ≡ some info
      → info.last_claim_time ≤ t
      → Paid d key t s now total s'
      → Accounted key info now total s'
  Paid-Accounted key info t s found le nothing = (info, found, refl, le, omega arith)
  Paid-Accounted key info t s found le (later run env (register l) r sender after keeps who h) =
      absurd keeps
  Paid-Accounted key info t s found le
        (later {now} {total} {u} run env claims r sender after keeps who h) =
      claim-Accounted key sender info now total u env (Paid-Accounted key info t s found le run)
        after who (claims_effect laws u env h)
  Paid-Accounted key info t s found le
        (later {now} {total} {u} run env (update o a g) r sender after keeps who h) =
      let (info', found', same, past, sum) = Paid-Accounted key info t s found le run in
      let (untouched, silent) = update_effect laws u env o a g h in
      (info', rw untouched found', same, omega arith, ground arith)

  -- For a registered account, whatever messages follow in order of time, none of them registering accounts: the transfers that the account's messages are
  -- answered by come to no more than its schedules release after its last claim time until now,
  -- and so to no more than the amounts of the schedules.
  pub payments_bound :
      (key : CanonicalAddr) (info : VestingInfo) (t : ℕ) (s : Storage) {now total : ℕ}
      {s' : Storage}
      → may_load key s.vesting_infos ≡ some info
      → info.last_claim_time ≤ t
      → Paid d key t s now total s'
      → (total + vested info.last_claim_time info.schedules ≤ vested now info.schedules)
        × (total ≤ amount_of info.schedules)
  payments_bound key info t s {now} found le run =
      let (last, _, _, past, sum) = Paid-Accounted key info t s found le run in
      let mono = vested_mono last.last_claim_time now info.schedules past in
      let whole = vested_bound now info.schedules in (omega arith, omega arith)
