-- ===== src/Airdrop/Claimed.antt =====
-- Claims of the airdrop: who can claim, and how often.
use anchor_token_contracts.Base.{
  ℕ, ◌≡◌, ◌≢◌, refl, String, true, false, Option, some, List, [], ◌∷◌, ok, arith, ◌==◌, ◌&&◌,
  if◌then◌else◌,
}
use anchor_token_contracts.Base.Buckets.{may_load, may_load-save}
use anchor_token_contracts.Cosmwasm.{
  Binary, Deps, Env, HandleResponse, HumanAddr, CanonicalAddr, transfer, text, num,
}
use anchor_token_contracts.Airdrop.Types.{Crypto, Config, Storage, read_claimed, store_claimed}
use anchor_token_contracts.Airdrop.Merkle.{leaf_hash}
use anchor_token_contracts.Airdrop.Contract.{
  HandleMsg, update, register, claims, claim, handle, update_config, register_merkle_root,
  assert_owner,
}
use anchor_token_contracts.Airdrop.Tree.{
  Tree, root, IsSized, At, Decodes, IsCrypto, fold_proof-root, same_bytes_refl,
}

read_claimed-store :
    (s : Storage) (user stage u st : ℕ)
    → read_claimed (store_claimed user stage s) u st
      ≡ (if (user == u) && (stage == st) then true else read_claimed s u st)
read_claimed-store s user stage u st = ground (arith, may_load-save stage st true (s.claim_index u))

-- The claim succeeds, sends the amount to the sender, and marks the stage as claimed for the
-- sender, and nothing else.
abbrev pub Claims :
    Deps → Crypto → Storage → Env → ℕ → ℕ → List String → HumanAddr → CanonicalAddr → Type 0
Claims d c s env stage amount proof token user =
    (s' : Storage) × (r : HandleResponse) × (claim d c s env stage amount proof ≡ ok (s', r))
    × (r.messages
        ≡ record { contract_addr = token; msg = transfer env.sender amount; coins = [] } ∷ [])
    × ((u st : ℕ)
        → read_claimed s' u st
          ≡ (if (user == u) && (stage == st) then true else read_claimed s u st))

abbrev receipt : HumanAddr → Env → ℕ → ℕ → HandleResponse
receipt token env stage amount = record {
  messages = record { contract_addr = token; msg = transfer env.sender amount; coins = [] } ∷ [];
  log =
      ("action", text "claim")
      ∷ ("stage", num stage)
      ∷ ("address", text env.sender)
      ∷ ("amount", num amount)
      ∷ [];
}

-- A sequence of messages that succeed.
pub data Reach (d : Deps) (c : Crypto) (s : Storage) : Storage → Type 0 where
  unmoved : Reach d c s s
  after :
      {t u : Storage}
      → Reach d c s t
      → (env : Env) (m : HandleMsg) (r : HandleResponse) → handle d c t env m ≡ ok (u, r)
      → Reach d c s u

module _ (d : Deps) (c : Crypto) where
  -- An account whose leaf, the digest of its address and amount, is in a tree of 32-byte leaves
  -- claims with the proof taken from the tree: if the tree's root is registered for the stage, the
  -- account has not claimed the stage, and the addresses can be translated, the claim succeeds,
  -- sends the amount to the account in one transfer, and marks exactly that stage of that account
  -- as claimed.
  pub claim_succeeds :
      (s : Storage) (env : Env) (stage amount : ℕ) (proof : List String) (t : Tree)
      (hashes : List Binary) (root_text : String) (config : Config) (token : HumanAddr)
      (user : CanonicalAddr)
      → IsCrypto c
      → IsSized c t
      → At c (leaf_hash c env.sender amount) t hashes
      → Decodes c proof hashes
      → s.config ≡ some config
      → may_load stage s.merkle_roots ≡ some root_text
      → c.decode_hex root_text ≡ some (root c t)
      → d.canonical_address env.sender ≡ ok user
      → read_claimed s user stage ≡ false
      → d.human_address config.anchor_token ≡ ok token
      → Claims d c s env stage amount proof token user
  unfolding claim
  claim_succeeds s env stage amount proof t hashes root_text config token user laws sized at e conf
        registered decoded who fresh named =
      let folded =
        fold_proof-root c laws (leaf_hash c env.sender amount) t hashes proof sized at e in
      (
        store_claimed user stage s,
        receipt token env stage amount,
        rw (conf, registered, who, fresh, folded, decoded, same_bytes_refl (root c t), named) refl,
        refl,
        read_claimed-store s user stage,
      )

  claim_effect :
      (s : Storage) (env : Env) (stage amount : ℕ) (proof : List String) {s' : Storage}
      {r : HandleResponse}
      → claim d c s env stage amount proof ≡ ok (s', r)
      → (user : CanonicalAddr) × (d.canonical_address env.sender ≡ ok user)
        × (read_claimed s user stage ≡ false)
        × (s' ≡ store_claimed user stage s)
  unfolding claim
  claim_effect s env stage amount proof h = ground arith

  update_effect :
      (s : Storage) (env : Env) (owner : Option HumanAddr) {s' : Storage} {r : HandleResponse}
      → update_config d s env owner ≡ ok (s', r)
      → s'.claim_index ≡ s.claim_index
  unfolding update_config assert_owner
  update_effect s env owner h = ground arith

  register_effect :
      (s : Storage) (env : Env) (merkle_root : String) {s' : Storage} {r : HandleResponse}
      → register_merkle_root d c s env merkle_root ≡ ok (s', r)
      → s'.claim_index ≡ s.claim_index
  unfolding register_merkle_root assert_owner
  register_effect s env merkle_root h = ground arith

  handle_keeps_claims :
      (s : Storage) (env : Env) (m : HandleMsg) (user stage : ℕ) {s' : Storage} {r : HandleResponse}
      → handle d c s env m ≡ ok (s', r)
      → read_claimed s user stage ≡ true
      → read_claimed s' user stage ≡ true
  unfolding handle
  handle_keeps_claims s env (update owner) user stage h claimed =
      rw (update_effect s env owner h) claimed
  handle_keeps_claims s env (register merkle_root) user stage h claimed =
      rw (register_effect s env merkle_root h) claimed
  handle_keeps_claims s env (claims st amount proof) user stage h claimed =
      let (user', _, _, e) = claim_effect s env st amount proof h in
      rw e (ground (arith, read_claimed-store s user' st user stage))

  reach_keeps_claims :
      (s t : Storage) (user stage : ℕ)
      → Reach d c s t
      → read_claimed s user stage ≡ true
      → read_claimed t user stage ≡ true
  reach_keeps_claims s t user stage unmoved claimed = claimed
  reach_keeps_claims s t user stage (after {t = u} run env m r h) claimed =
      handle_keeps_claims u env m user stage h (reach_keeps_claims s u user stage run claimed)

  -- After a claim that succeeds, and whatever messages succeed after it, no claim of the same
  -- stage succeeds that comes from an address with the same canonical form, whatever the amount
  -- and the proof.
  pub claim_once :
      (s s' t : Storage) (env env' : Env) (stage amount amount' : ℕ) (proof proof' : List String)
      (r r' : HandleResponse) (t' : Storage)
      → claim d c s env stage amount proof ≡ ok (s', r)
      → Reach d c s' t
      → d.canonical_address env'.sender ≡ d.canonical_address env.sender
      → claim d c t env' stage amount' proof' ≢ ok (t', r')
  claim_once s s' t env env' stage amount amount' proof proof' r r' t' h run same again =
      let (user, who, _, e) = claim_effect s env stage amount proof h in
      let (user', who', fresh, _) = claim_effect t env' stage amount' proof' again in
      let users : user' ≡ user = ground (arith, who, who', same) in
      let marked : read_claimed s' user stage ≡ true =
        rw e (ground (arith, read_claimed-store s user stage user stage)) in
      let still = reach_keeps_claims s' t user stage run marked in
      ground (arith, fresh, users, still)
