-- ===== src/Airdrop/Types.antt =====
-- contracts/airdrop/src/state.rs. Hashing, hex decoding and text encoding are other crates' code.
use anchor_token_contracts.Base.{
  ℕ, String, Bool, true, false, Option, Result, not_found, ok_or, unwrap_or, ◌==◌, if◌then◌else◌,
}
use anchor_token_contracts.Base.Buckets.{Bucket, save, load, may_load}
use anchor_token_contracts.Cosmwasm.{CanonicalAddr, Binary}

-- `sha3::Keccak256::digest`, `hex::decode_to_slice` into 32 bytes, and the bytes of a text and of
-- a printed number.
pub record Crypto : Type 0 where
  pub digest : Binary → Binary
  pub decode_hex : String → Option Binary
  pub as_bytes : String → Binary
  pub print_uint : ℕ → Binary

pub record Config : Type 0 where
  pub owner : CanonicalAddr
  pub anchor_token : CanonicalAddr

pub record Storage : Type 0 where
  pub config : Option Config
  pub latest_stage : Option ℕ
  pub merkle_roots : Bucket String
  pub claim_index : CanonicalAddr → Bucket Bool

abbrev pub read_config : Storage → Result Config
read_config s = ok_or s.config not_found

abbrev pub read_latest_stage : Storage → Result ℕ
read_latest_stage s = ok_or s.latest_stage not_found

abbrev pub read_merkle_root : Storage → ℕ → Result String
read_merkle_root s stage = load stage s.merkle_roots

abbrev pub read_claimed : Storage → CanonicalAddr → ℕ → Bool
read_claimed s user stage = unwrap_or (may_load stage (s.claim_index user)) false

abbrev pub store_claimed : CanonicalAddr → ℕ → Storage → Storage
store_claimed user stage s = record s {
  claim_index = λ u. if user == u then save stage true (s.claim_index u) else s.claim_index u;
}
