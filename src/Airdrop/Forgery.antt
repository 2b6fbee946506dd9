-- ===== src/Airdrop/Forgery.antt =====
-- Second buffers for the digests that a Merkle tree is made of.
use anchor_token_contracts.Base.{
  ℕ, ◌≡◌, ◌≢◌, ◌⊎◌, inl, inr, refl, String, true, false, [], ◌∷◌, ◌++◌, arith, ap, ◌∙◌, sym, length,
  length-append, Bool-cases,
}
use anchor_token_contracts.Cosmwasm.{Binary}
use anchor_token_contracts.Airdrop.Types.{Crypto}
use anchor_token_contracts.Airdrop.Merkle.{hash_pair, leaf_hash, same_bytes}
use anchor_token_contracts.Airdrop.Tree.{same_bytes_refl, Tree, leaf, node, root}

pub same_bytes-eq : (a b : Binary) → same_bytes a b ≡ true → a ≡ b
unfolding same_bytes
same_bytes-eq [] [] h = refl
same_bytes-eq [] (y ∷ b) h = ground arith
same_bytes-eq (x ∷ a) [] h = ground arith
same_bytes-eq (x ∷ a) (y ∷ b) h = ground (arith, same_bytes-eq a b)

same_bytes-neq : (a b : Binary) → same_bytes a b ≡ false → a ≢ b
same_bytes-neq a b h e = cc (same_bytes_refl a)

append_injective :
    (a a' b b' : Binary) → length a ≡ length a' → a ++ b ≡ a' ++ b' → (a ≡ a') × (b ≡ b')
append_injective [] [] b b' e h = (refl, h)
append_injective [] (y ∷ a') b b' e h = absurd (omega (arith, e))
append_injective (x ∷ a) [] b b' e h = absurd (omega (arith, e))
append_injective (x ∷ a) (y ∷ a') b b' e h =
    ground (arith, append_injective a a' b b' (omega (arith, e)))

module _ (c : Crypto) where
  abbrev pub text_of : String → ℕ → Binary
  text_of account amount = c.as_bytes account ++ c.print_uint amount

  -- The buffers whose digests make up a tree: the text of an account, and pairs of roots.
  pub data Hashed : Tree → Binary → Type 0 where
    of_account :
        (account : String) (amount : ℕ)
        → Hashed (leaf (leaf_hash c account amount)) (text_of account amount)
    of_pair : {l r : Tree} → Hashed (node l r) (root c l ++ root c r)
    of_turned : {l r : Tree} → Hashed (node l r) (root c r ++ root c l)
    of_left : {l r : Tree} {y : Binary} → Hashed l y → Hashed (node l r) y
    of_right : {l r : Tree} {y : Binary} → Hashed r y → Hashed (node l r) y

  -- A second buffer for the digest of one that the tree is made of, and the second is the
  -- claimant's text or has the 64 bytes of a pair.
  pub data Forged (account : String) (amount : ℕ) (t : Tree) : Type 0 where
    forged :
        (x y : Binary)
        → (x ≡ text_of account amount) ⊎ (length x ≡ 64)
        → Hashed t y
        → x ≢ y
        → c.digest x ≡ c.digest y
        → Forged account amount t

  -- Every leaf is that of an account and an amount, whose text does not have 64 bytes.
  abbrev pub IsOfAccounts : Tree → Type 0
  IsOfAccounts (leaf b) =
      (account : String) × (amount : ℕ) × (b ≡ leaf_hash c account amount)
      × (length (text_of account amount) ≢ 64)
  IsOfAccounts (node l r) = IsOfAccounts l × IsOfAccounts r

  pair_cases :
      (a b : Binary) → (hash_pair c a b ≡ c.digest (a ++ b)) ⊎ (hash_pair c a b ≡ c.digest (b ++ a))
  unfolding hash_pair
  pair_cases a b = ground arith

  pair_length : (x y : Binary) → length x ≡ 32 → length y ≡ 32 → length (x ++ y) ≡ 64
  pair_length x y e e' = omega (arith, length-append {0} x y, e, e')

  module _ (account : String) (amount : ℕ) where
    joined :
        (t : Tree) (x p l r : Binary)
        → length x ≡ 32
        → length p ≡ 32
        → length l ≡ 32
        → Hashed t (l ++ r)
        → c.digest (x ++ p) ≡ c.digest (l ++ r)
        → ((x ≡ l) × (p ≡ r)) ⊎ Forged account amount t
    joined t x p l r at_x at_p at_l of h = elim (Bool-cases (same_bytes (x ++ p) (l ++ r))) [
      | inl same ↦
          inl (append_injective x l p r (at_x ∙ sym at_l) (same_bytes-eq (x ++ p) (l ++ r) same))
      | inr other ↦ inr (
          forged (x ++ p) (l ++ r) (inr (pair_length x p at_x at_p)) of
            (same_bytes-neq (x ++ p) (l ++ r) other) h)
    ]

    or_Forged :
        {A B : Type 0} (t : Tree)
        → (A → B)
        → A ⊎ Forged account amount t
        → B ⊎ Forged account amount t
    or_Forged t f (inl a) = inl (f a)
    or_Forged t f (inr broken) = inr broken

    pub Forged-in :
        (t u : Tree)
        → ((y : Binary) → Hashed t y → Hashed u y)
        → Forged account amount t
        → Forged account amount u
    Forged-in t u up_to (forged x y tried of other h) = forged x y tried (up_to y of) other h

    -- A pair with the digest of a node has the roots below the node as its parts.
    pub unpaired :
        (x p : Binary) (a b : Tree)
        → length x ≡ 32
        → length p ≡ 32
        → length (root c a) ≡ 32
        → length (root c b) ≡ 32
        → hash_pair c x p ≡ root c (node a b)
        → ((x ≡ root c a) ⊎ (x ≡ root c b)) ⊎ Forged account amount (node a b)
    unpaired x p a b at_x at_p at_a at_b h =
        let l = root c a in
        let r = root c b in
        let t = node a b in
        elim (pair_cases x p) [
          | inl e ↦ elim (pair_cases l r) [
            | inl e' ↦
                or_Forged t (λ q. inl q.0)
                  (joined t x p l r at_x at_p at_a of_pair (sym e ∙ h ∙ e'))
            | inr e' ↦
                or_Forged t (λ q. inr q.0)
                  (joined t x p r l at_x at_p at_b of_turned (sym e ∙ h ∙ e'))
          ]
          | inr e ↦ elim (pair_cases l r) [
            | inl e' ↦
                or_Forged t (λ q. inr q.1)
                  (joined t p x l r at_p at_x at_a of_pair (sym e ∙ h ∙ e'))
            | inr e' ↦
                or_Forged t (λ q. inl q.1)
                  (joined t p x r l at_p at_x at_b of_turned (sym e ∙ h ∙ e'))
          ]
        ]

    -- The claimant's text is no pair of roots.
    pub text_no_pair :
        (a b : Tree)
        → length (root c a) ≡ 32
        → length (root c b) ≡ 32
        → length (text_of account amount) ≢ 64
        → leaf_hash c account amount ≡ root c (node a b)
        → Forged account amount (node a b)
    unfolding leaf_hash
    text_no_pair a b at_a at_b short h =
        let text = text_of account amount in
        let l = root c a in
        let r = root c b in
        elim (pair_cases l r) [
          | inl e ↦
              forged text (l ++ r) (inl refl) of_pair
                (λ same. short (ap length same ∙ pair_length l r at_a at_b)) (h ∙ e)
          | inr e ↦
              forged text (r ++ l) (inl refl) of_turned
                (λ same. short (ap length same ∙ pair_length r l at_b at_a)) (h ∙ e)
        ]

    -- No pair is the text of a listed account.
    pub pair_no_text :
        (x p : Binary) (other : String) (n : ℕ)
        → length x ≡ 32
        → length p ≡ 32
        → length (text_of other n) ≢ 64
        → hash_pair c x p ≡ leaf_hash c other n
        → Forged account amount (leaf (leaf_hash c other n))
    unfolding leaf_hash
    pair_no_text x p other n at_x at_p short h = elim (pair_cases x p) [
      | inl e ↦
          forged (x ++ p) (text_of other n) (inr (pair_length x p at_x at_p)) (of_account other n)
            (λ same. short (ap length (sym same) ∙ pair_length x p at_x at_p)) (sym e ∙ h)
      | inr e ↦
          forged (p ++ x) (text_of other n) (inr (pair_length p x at_p at_x)) (of_account other n)
            (λ same. short (ap length (sym same) ∙ pair_length p x at_p at_x)) (sym e ∙ h)
    ]
