-- ===== src/Airdrop/Tree.antt =====
-- Merkle trees: a proof taken from a tree folds to the tree's root.
use anchor_token_contracts.Base.{
  ◌≡◌, refl, String, true, false, some, List, [], ◌∷◌, ◌++◌, ok, arith, ap, ◌∙◌, sym, length,
}
use anchor_token_contracts.Cosmwasm.{Binary}
use anchor_token_contracts.Airdrop.Types.{Crypto}
use anchor_token_contracts.Airdrop.Merkle.{bytes_cmp, is_less, hash_pair, fold_proof, same_bytes}

-- A digest of Keccak-256 has 32 bytes, and so has the buffer that a text is decoded into.
pub record IsCrypto (c : Crypto) : Type 0 where
  pub digest_length : (b : Binary) → length (c.digest b) ≡ 32
  pub decode_length : (t : String) (b : Binary) → c.decode_hex t ≡ some b → length b ≡ 32

pub data Tree : Type 0 where
  leaf : Binary → Tree
  node : Tree → Tree → Tree

pub same_bytes_refl : (b : Binary) → same_bytes b b ≡ true
unfolding same_bytes
same_bytes_refl [] = refl
same_bytes_refl (x ∷ b) = ground (arith, same_bytes_refl b)

-- Two buffers of one length that are not less than each other are equal.
not_less-eq :
    (a b : Binary)
    → length a ≡ length b
    → is_less (bytes_cmp a b) ≡ false
    → is_less (bytes_cmp b a) ≡ false
    → a ≡ b
unfolding bytes_cmp
not_less-eq [] [] e h k = refl
not_less-eq [] (y ∷ b) e h k = absurd (omega (arith, e))
not_less-eq (x ∷ a) [] e h k = absurd (omega (arith, e))
not_less-eq (x ∷ a) (y ∷ b) e h k =
    let same : x ≡ y = ground arith in
    let rest : a ≡ b = ground (arith, not_less-eq a b (omega (arith, e))) in ground arith

less-asym : (a b : Binary) → is_less (bytes_cmp a b) ≡ true → is_less (bytes_cmp b a) ≡ false
unfolding bytes_cmp
less-asym [] b h = ground arith
less-asym (x ∷ a) [] h = ground arith
less-asym (x ∷ a) (y ∷ b) h = ground (arith, less-asym a b)

module _ (c : Crypto) where
  -- The smaller hash goes first, so the order of the two does not matter.
  hash_pair_comm : (a b : Binary) → length a ≡ length b → hash_pair c a b ≡ hash_pair c b a
  unfolding hash_pair
  hash_pair_comm a b e = ground (arith, not_less-eq a b e, less-asym a b, less-asym b a)

  abbrev pub root : Tree → Binary
  root (leaf b) = b
  root (node l r) = hash_pair c (root l) (root r)

  abbrev pub IsSized : Tree → Type 0
  IsSized (leaf b) = length b ≡ 32
  IsSized (node l r) = IsSized l × IsSized r

  -- A leaf of a tree, with the roots of the subtrees beside the way to it, from the leaf up.
  pub data At (x : Binary) : Tree → List Binary → Type 0 where
    here : At x (leaf x) []
    on_left : {l r : Tree} {p : List Binary} → At x l p → At x (node l r) (p ++ (root r ∷ []))
    on_right : {l r : Tree} {p : List Binary} → At x r p → At x (node l r) (p ++ (root l ∷ []))

  -- The texts of a proof decode to these hashes.
  abbrev pub Decodes : List String → List Binary → Type 0
  Decodes [] [] = Unit
  Decodes [] (b ∷ l) = ⊥
  Decodes (t ∷ texts) [] = ⊥
  Decodes (t ∷ texts) (b ∷ l) = (c.decode_hex t ≡ some b) × Decodes texts l

  abbrev pub climb : Binary → List Binary → Binary
  climb h [] = h
  climb h (b ∷ l) = climb (hash_pair c h b) l

  climb-append :
      (h b : Binary) (l : List Binary) → climb h (l ++ (b ∷ [])) ≡ hash_pair c (climb h l) b
  climb-append h b [] = refl
  climb-append h b (x ∷ l) = climb-append (hash_pair c h x) b l

  fold_proof-climb :
      (h : Binary) (texts : List String) (l : List Binary)
      → Decodes texts l
      → fold_proof c h texts ≡ ok (climb h l)
  unfolding fold_proof
  fold_proof-climb h [] [] e = refl
  fold_proof-climb h [] (b ∷ l) e = absurd e
  fold_proof-climb h (t ∷ texts) [] e = absurd e
  fold_proof-climb h (t ∷ texts) (b ∷ l) e = rw e.0 (fold_proof-climb (hash_pair c h b) texts l e.1)

  module _ (laws : IsCrypto c) where
    pub length-hash_pair : (a b : Binary) → length (hash_pair c a b) ≡ 32
    unfolding hash_pair
    length-hash_pair a b = ground (arith, laws.digest_length (a ++ b), laws.digest_length (b ++ a))

    pub length-root : (t : Tree) → IsSized t → length (root t) ≡ 32
    length-root (leaf b) e = e
    length-root (node l r) e = length-hash_pair (root l) (root r)

    climb-root :
        (x : Binary) (t : Tree) (l : List Binary) → IsSized t → At x t l → climb x l ≡ root t
    climb-root x t l sized here = refl
    climb-root x (node a b) _ sized (on_left {p = p} at) =
        climb-append x (root b) p ∙ ap (λ h. hash_pair c h (root b)) (climb-root x a p sized.0 at)
    climb-root x (node a b) _ sized (on_right {p = p} at) =
        climb-append x (root a) p
        ∙ ap (λ h. hash_pair c h (root a)) (climb-root x b p sized.1 at)
        ∙ hash_pair_comm (root b) (root a) (length-root b sized.1 ∙ sym (length-root a sized.0))

    pub fold_proof-root :
        (x : Binary) (t : Tree) (l : List Binary) (texts : List String)
        → IsSized t
        → At x t l
        → Decodes texts l
        → fold_proof c x texts ≡ ok (root t)
    fold_proof-root x t l texts sized at e =
        fold_proof-climb x texts l e ∙ ap ok (climb-root x t l sized at)
