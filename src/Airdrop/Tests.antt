-- ===== src/Airdrop/Tests.antt =====
-- The airdrop on a tree of two leaves: runs, and the theorems at concrete inputs.
use text.Mathlib.Text.{◌==◌ as str_eq}
use anchor_token_contracts.Base.{
  ℕ, ◌+◌, ◌*◌, ◌≡◌, ◌≢◌, refl, some, none, Result, ok, err, [], ◌∷◌, ◌++◌, if◌then◌else◌, String,
  Option, arith, ◌⊎◌,
}
use anchor_token_contracts.Base.Buckets.{may_load, save}
use anchor_token_contracts.Cosmwasm.{Binary, Deps, HandleResponse, example_deps, env_at}
use anchor_token_contracts.Airdrop.Types.{Crypto, Storage}
use anchor_token_contracts.Airdrop.Merkle.{bytes_cmp, hash_pair, leaf_hash, fold_proof, same_bytes}
use anchor_token_contracts.Airdrop.Contract.{claim, handle, update, update_config, assert_owner}
use anchor_token_contracts.Airdrop.Tree.{Tree, leaf, node, IsCrypto, here, on_left}
use anchor_token_contracts.Airdrop.Forgery.{Forged}
use anchor_token_contracts.Airdrop.Descent.{IsIn}
use anchor_token_contracts.Airdrop.Sound.{claim_sound}
use anchor_token_contracts.Airdrop.Claimed.{Claims, unmoved, after, claim_succeeds, claim_once}

abbrev deps : Deps
deps = example_deps 0

-- A toy digest of 32 bytes.
abbrev sum : Binary → ℕ
sum [] = 0
sum (x ∷ b) = x + 3 * sum b

abbrev zeros : Binary
zeros =
    0 ∷ 0 ∷ 0 ∷ 0 ∷ 0 ∷ 0 ∷ 0 ∷ 0 ∷ 0 ∷ 0 ∷ 0 ∷ 0 ∷ 0 ∷ 0 ∷ 0 ∷ 0 ∷ 0 ∷ 0 ∷ 0 ∷ 0 ∷ 0 ∷ 0 ∷ 0 ∷ 0
    ∷ 0 ∷ 0 ∷ 0 ∷ 0 ∷ 0 ∷ 0 ∷ 0 ∷ []

abbrev digest : Binary → Binary
digest b = sum b ∷ zeros

abbrev bytes : String → Binary
bytes t = if str_eq t "alice" then 97 ∷ 108 ∷ [] else 98 ∷ []

abbrev leaf_of : String → ℕ → Binary
leaf_of t amount = digest (bytes t ++ (amount ∷ []))

-- Alice gets 70 tokens and Bob 30.
abbrev root_value : Binary
root_value = digest (leaf_of "bob" 30 ++ leaf_of "alice" 70)

abbrev decode_hex : String → Option Binary
decode_hex t =
    if str_eq t "bob30"
    then some (leaf_of "bob" 30)
    else if str_eq t "root"
    then some root_value
    else none

abbrev crypto : Crypto
crypto = record {
  digest = digest;
  decode_hex = decode_hex;
  as_bytes = bytes;
  print_uint = λ n. n ∷ [];
}

crypto-IsCrypto : IsCrypto crypto
crypto-IsCrypto = record { digest_length = λ b. refl; decode_length = λ t b h. ground arith }

abbrev tree : Tree
tree = node (leaf (leaf_of "alice" 70)) (leaf (leaf_of "bob" 30))

abbrev start : Storage
start = record {
  config = some (record { owner = 5; anchor_token = 1 });
  latest_stage = some 1;
  merkle_roots = (1, "root") ∷ [];
  claim_index = λ _. [];
}

claim_succeeds_example :
    Claims deps crypto start (env_at "alice" 1 0) 1 70 ("bob30" ∷ []) "anchor" 3
unfolding may_load leaf_hash hash_pair bytes_cmp
claim_succeeds_example =
    claim_succeeds deps crypto start (env_at "alice" 1 0) 1 70 ("bob30" ∷ []) tree
      (leaf_of "bob" 30 ∷ []) "root" (record { owner = 5; anchor_token = 1 }) "anchor" 3
      crypto-IsCrypto (refl, refl) (on_left here) (refl, tt) refl refl refl refl refl refl

abbrev storage_of : Result (Storage × HandleResponse) → Storage
storage_of (ok (s, r)) = s
storage_of (err e) = start

abbrev response_of : Result (Storage × HandleResponse) → HandleResponse
response_of (ok (s, r)) = r
response_of (err e) = record { messages = []; log = [] }

abbrev claiming : Result (Storage × HandleResponse)
claiming = claim deps crypto start (env_at "alice" 1 0) 1 70 ("bob30" ∷ [])

claiming_runs : claiming ≡ ok (storage_of claiming, response_of claiming)
unfolding claim fold_proof same_bytes may_load leaf_hash hash_pair bytes_cmp save
claiming_runs = refl

abbrev updating : Result (Storage × HandleResponse)
updating = handle deps crypto (storage_of claiming) (env_at "carol" 2 0) (update (some "bob"))

updating_runs : updating ≡ ok (storage_of updating, response_of updating)
unfolding claiming_runs handle update_config assert_owner
updating_runs = refl

claim_once_example :
    claim deps crypto (storage_of updating) (env_at "alice" 3 0) 1 70 ("bob30" ∷ [])
    ≢ ok (start, response_of claiming)
claim_once_example =
    claim_once deps crypto start (storage_of claiming) (storage_of updating) (env_at "alice" 1 0)
      (env_at "alice" 3 0) 1 70 70 ("bob30" ∷ []) ("bob30" ∷ []) (response_of claiming)
      (response_of claiming) start claiming_runs
      (after unmoved (env_at "carol" 2 0) (update (some "bob")) (response_of updating)
        updating_runs)
      refl

claim_sound_example : IsIn crypto crypto-IsCrypto "alice" 70 tree ⊎ Forged crypto "alice" 70 tree
unfolding may_load leaf_hash hash_pair bytes_cmp
claim_sound_example =
    claim_sound deps crypto crypto-IsCrypto start (env_at "alice" 1 0) 1 70 ("bob30" ∷ []) tree
      "root" (omega arith) (refl, refl)
      (("alice", 70, refl, omega arith), ("bob", 30, refl, omega arith)) refl refl claiming_runs
