-- ===== src/Airdrop/Merkle.antt =====
-- contracts/airdrop/src/contract.rs: `bytes_cmp` and the loop over the proof in `claim`.
use Prim.Native.Nat.{Ordering}
use anchor_token_contracts.Base.{
  ℕ, String, Bool, true, false, List, [], ◌∷◌, ◌++◌, Result, ok, generic_err, ◌>>=◌, ltb,
  if◌then◌else◌, ok_or,
}
use anchor_token_contracts.Cosmwasm.{Binary}
use anchor_token_contracts.Airdrop.Types.{Crypto}

-- The order of two buffers of one length, 32 in the source.
unfoldable pub bytes_cmp : Binary → Binary → Ordering
bytes_cmp [] b = Ordering.eq
bytes_cmp (x ∷ a) [] = Ordering.eq
bytes_cmp (x ∷ a) (y ∷ b) =
    let rest = bytes_cmp a b in
    if ltb y x then Ordering.gt else (if ltb x y then Ordering.lt else rest)

abbrev pub is_less : Ordering → Bool
is_less Ordering.lt = true
is_less _ = false

module _ (c : Crypto) where
  -- The digest of two hashes, the smaller one first.
  unfoldable pub hash_pair : Binary → Binary → Binary
  hash_pair hash proof =
      if is_less (bytes_cmp hash proof) then c.digest (hash ++ proof) else c.digest (proof ++ hash)

  unfoldable pub fold_proof : Binary → List String → Result Binary
  unfolding hash_pair
  fold_proof hash [] = ok hash
  fold_proof hash (p ∷ proof) = do
    proof_buf ← ok_or (c.decode_hex p) (generic_err "Invalid hex encoded proof")
    fold_proof (hash_pair hash proof_buf) proof

  -- The digest of the claimant's address followed by the printed amount.
  unfoldable pub leaf_hash : String → ℕ → Binary
  leaf_hash sender amount = c.digest (c.as_bytes sender ++ c.print_uint amount)

-- `==` of two buffers.
unfoldable pub same_bytes : Binary → Binary → Bool
same_bytes [] [] = true
same_bytes [] (y ∷ b) = false
same_bytes (x ∷ a) [] = false
same_bytes (x ∷ a) (y ∷ b) =
    let rest = same_bytes a b in if ltb x y then false else (if ltb y x then false else rest)
