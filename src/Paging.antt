-- ===== src/Paging.antt =====
-- The pages of a bucket: contracts/gov/src/state.rs, contracts/vesting/src/state.rs.
pub mod Pages
pub mod Entries
pub mod Tests
use anchor_token_contracts.Base.{ℕ, Option, none, some, true, false, min, take, reverse, unwrap_or}
use anchor_token_contracts.Base.Buckets.{Bucket, Bound, range}
use anchor_token_contracts.Cosmwasm.{OrderBy, asc, desc}

abbrev pub max_limit : ℕ
max_limit = 30

abbrev pub default_limit : ℕ
default_limit = 10

-- `limit.unwrap_or(DEFAULT_LIMIT).min(MAX_LIMIT)`
abbrev pub page_size : Option ℕ → ℕ
page_size limit = min (unwrap_or limit default_limit) max_limit

-- `calc_range_start` and `calc_range_start_addr`: the key with a byte 1 appended.
abbrev pub calc_range_start : Option ℕ → Option Bound
calc_range_start none = none
calc_range_start (some id) = some (record { key = id; appended = true })

-- `calc_range_end` and `calc_range_end_addr`: the key itself.
abbrev pub calc_range_end : Option ℕ → Option Bound
calc_range_end none = none
calc_range_end (some id) = some (record { key = id; appended = false })

-- One page of a bucket: ascending after the given key, or descending before it.
unfoldable pub page {ℓ} : {V : Type ℓ} → Bucket V → Option ℕ → Option ℕ → Option OrderBy → Bucket V
page b start_after limit (some asc) =
    take (page_size limit) (range (calc_range_start start_after) none b)
page b start_after limit (some desc) =
    take (page_size limit) (reverse (range none (calc_range_end start_after) b))
page b start_after limit none =
    take (page_size limit) (reverse (range none (calc_range_end start_after) b))
