-- ===== src/Airdrop/Sound.antt =====
-- Only listed accounts can claim.
use anchor_token_contracts.Base.{
  ℕ, ◌≡◌, ◌⊎◌, ◌≢◌, String, true, some, List, ok, arith, ◌∙◌, sym, reverse, All-reverse, length,
}
use anchor_token_contracts.Base.Buckets.{may_load}
use anchor_token_contracts.Cosmwasm.{Binary, Deps, Env, HandleResponse}
use anchor_token_contracts.Airdrop.Types.{Crypto, Storage}
use anchor_token_contracts.Airdrop.Merkle.{fold_proof, leaf_hash, same_bytes}
use anchor_token_contracts.Airdrop.Contract.{claim}
use anchor_token_contracts.Airdrop.Tree.{Tree, root, IsSized, IsCrypto}
use anchor_token_contracts.Airdrop.Descent.{IsIn, descend, decoded, climb-reverse}
use anchor_token_contracts.Airdrop.Forgery.{Forged, text_of, IsOfAccounts, same_bytes-eq}

module _ (d : Deps) (c : Crypto) where
  verified :
      (s : Storage) (env : Env) (stage amount : ℕ) (proof : List String) (root_text : String)
      (root_hash : Binary) {s' : Storage} {r : HandleResponse}
      → may_load stage s.merkle_roots ≡ some root_text
      → c.decode_hex root_text ≡ some root_hash
      → claim d c s env stage amount proof ≡ ok (s', r)
      → (hash : Binary) × (fold_proof c (leaf_hash c env.sender amount) proof ≡ ok hash)
        × (same_bytes root_hash hash ≡ true)
  unfolding claim
  verified s env stage amount proof root_text root_hash registered known h = ground arith

  -- If a claim succeeds at a stage whose registered root is that of a tree of accounts with their
  -- amounts, the sender with this amount is one of the leaves of the tree, or the claim has found
  -- a second buffer for one of the digests that the tree is made of. Neither the sender's text nor
  -- those of the listed accounts have the 64 bytes of a pair of digests.
  pub claim_sound :
      (laws : IsCrypto c) (s : Storage) (env : Env) (stage amount : ℕ) (proof : List String)
      (t : Tree) (root_text : String) {s' : Storage} {r : HandleResponse}
      → length (text_of c env.sender amount) ≢ 64
      → IsSized c t
      → IsOfAccounts c t
      → may_load stage s.merkle_roots ≡ some root_text
      → c.decode_hex root_text ≡ some (root c t)
      → claim d c s env stage amount proof ≡ ok (s', r)
      → IsIn c laws env.sender amount t ⊎ Forged c env.sender amount t
  claim_sound laws s env stage amount proof t root_text short sized listed registered known h =
      let (hash, folded, same) =
        verified s env stage amount proof root_text (root c t) registered known h in
      let leaf = leaf_hash c env.sender amount in
      let (l, sizes, climbed) = decoded c laws leaf proof folded in
      descend c laws env.sender amount (reverse l) t short
        (All-reverse (λ b. length b ≡ 32) l sizes) sized listed
        (sym (climb-reverse c leaf l) ∙ climbed ∙ sym (same_bytes-eq (root c t) hash same))
