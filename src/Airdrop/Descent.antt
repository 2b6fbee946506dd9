-- ===== src/Airdrop/Descent.antt =====
-- The way down from the root to the leaf that a proof claims.
use anchor_token_contracts.Base.{
  ℕ, ◌≡◌, ◌≢◌, ◌⊎◌, inl, inr, refl, String, List, [], ◌∷◌, ◌++◌, ok, arith, ap, ◌∙◌, sym, length,
  reverse, Option-cases, All, subst,
}
use mathlib.Core.List.{reverse-cons}
use anchor_token_contracts.Cosmwasm.{Binary}
use anchor_token_contracts.Airdrop.Types.{Crypto}
use anchor_token_contracts.Airdrop.Merkle.{hash_pair, fold_proof, leaf_hash}
use anchor_token_contracts.Airdrop.Tree.{
  Tree, leaf, node, root, climb, IsSized, At, here, on_left, on_right, IsCrypto, length-hash_pair,
  length-root,
}
use anchor_token_contracts.Airdrop.Forgery.{
  of_left, of_right, Forged, IsOfAccounts, text_of, text_no_pair, pair_no_text, unpaired, Forged-in,
}

module _ (c : Crypto) where
  -- The loop over the proof, seen from its last step.
  abbrev up : Binary → List Binary → Binary
  up h [] = h
  up h (p ∷ l) = hash_pair c (up h l) p

  up-append : (h b : Binary) (l : List Binary) → up h (l ++ (b ∷ [])) ≡ up (hash_pair c h b) l
  up-append h b [] = refl
  up-append h b (p ∷ l) = ap (λ k. hash_pair c k p) (up-append h b l)

  pub climb-reverse : (h : Binary) (l : List Binary) → climb c h l ≡ up h (reverse l)
  climb-reverse h [] = refl
  climb-reverse h (b ∷ l) =
      climb-reverse (hash_pair c h b) l
      ∙ sym (up-append h b (reverse l))
      ∙ ap (up h) (sym (reverse-cons b l))

  module _ (laws : IsCrypto c) where
    length-up :
        (account : String) (amount : ℕ) (l : List Binary)
        → length (up (leaf_hash c account amount) l) ≡ 32
    unfolding leaf_hash
    length-up account amount [] = laws.digest_length _
    length-up account amount (p ∷ l) = length-hash_pair c laws _ p

    abbrev pub IsIn : String → ℕ → Tree → Type 0
    IsIn account amount t = (hashes : List Binary) × At c (leaf_hash c account amount) t hashes

    IsIn-node :
        (account : String) (amount : ℕ) (l r : Tree)
        → IsIn account amount l ⊎ IsIn account amount r
        → IsIn account amount (node l r)
    IsIn-node account amount l r (inl (hashes, at)) = (hashes ++ (root c r ∷ []), on_left at)
    IsIn-node account amount l r (inr (hashes, at)) = (hashes ++ (root c l ∷ []), on_right at)

    IsIn-left :
        (account : String) (amount : ℕ) (l r : Tree)
        → IsIn account amount l ⊎ Forged c account amount l
        → IsIn account amount (node l r) ⊎ Forged c account amount (node l r)
    IsIn-left account amount l r (inl i) = inl (IsIn-node account amount l r (inl i))
    IsIn-left account amount l r (inr f) =
        inr (Forged-in c account amount l (node l r) (λ y of. of_left of) f)

    IsIn-right :
        (account : String) (amount : ℕ) (l r : Tree)
        → IsIn account amount r ⊎ Forged c account amount r
        → IsIn account amount (node l r) ⊎ Forged c account amount (node l r)
    IsIn-right account amount l r (inl i) = inl (IsIn-node account amount l r (inr i))
    IsIn-right account amount l r (inr f) =
        inr (Forged-in c account amount r (node l r) (λ y of. of_right of) f)

    pub descend :
        (account : String) (amount : ℕ) (l : List Binary) (t : Tree)
        → length (text_of c account amount) ≢ 64
        → All (λ b. length b ≡ 32) l
        → IsSized c t
        → IsOfAccounts c t
        → up (leaf_hash c account amount) l ≡ root c t
        → IsIn account amount t ⊎ Forged c account amount t
    descend account amount [] (leaf b) short at_l sized listed h =
        inl ([], subst (λ y. At c (leaf_hash c account amount) (leaf y) []) h here)
    descend account amount [] (node a b) short at_l sized listed h = inr (
        text_no_pair c account amount a b (length-root c laws a sized.0)
          (length-root c laws b sized.1) short h)
    descend account amount (p ∷ l) (leaf b) short at_l sized (other, n, e, short') h = inr (
        subst (λ y. Forged c account amount (leaf y)) (sym e)
          (pair_no_text c account amount (up (leaf_hash c account amount) l) p other n
            (length-up account amount l) at_l.0 short' (h ∙ e)))
    descend account amount (p ∷ l) (node a b) short at_l sized listed h =
        elim (unpaired c account amount (up (leaf_hash c account amount) l) p a b
          (length-up account amount l) at_l.0 (length-root c laws a sized.0)
          (length-root c laws b sized.1) h) [
            | inl (inl e) ↦
                IsIn-left account amount a b
                  (descend account amount l a short at_l.1 sized.0 listed.0 e)
            | inl (inr e) ↦
                IsIn-right account amount a b
                  (descend account amount l b short at_l.1 sized.1 listed.1 e)
            | inr broken ↦ inr broken
          ]

    -- A proof that a fold succeeds with decodes to buffers of 32 bytes.
    pub decoded :
        (h : Binary) (proof : List String) {root_hash : Binary}
        → fold_proof c h proof ≡ ok root_hash
        → (l : List Binary) × All (λ b. length b ≡ 32) l × (climb c h l ≡ root_hash)
    unfolding fold_proof
    decoded h [] e = ([], tt, ground arith)
    decoded h (t ∷ proof) {root_hash} e = elim (Option-cases (c.decode_hex t)) [
      | inl bad ↦ absurd (ground arith)
      | inr (b, good) ↦
          let rest : fold_proof c (hash_pair c h b) proof ≡ ok root_hash = ground arith in
          let (l, at_l, climbed) = decoded (hash_pair c h b) proof rest in
          (b ∷ l, (laws.decode_length t b good, at_l), climbed)
    ]
