-- ===== src/Cosmwasm.antt =====
-- What the contracts use of their platform (cosmwasm_std 0.10, cw20), none of which is code of
-- this repository: it is the parameter `Deps`, with the documented behaviour as `IsCosmwasm`.
-- `HumanAddr` and `Binary` are their text and bytes, `CanonicalAddr` is a number that stands for
-- the bytes (0 for the empty address), `Uint128` is its number and `Decimal` its number of
-- 10⁻¹⁸. JSON encoding is left out: a message is the value that would be encoded.
mod Example
pub use Example.{example_deps, example_laws, example_codec, env_at}
pub mod Types
pub mod Laws
pub use Types.*
mod Paid
pub use Paid.{paid_by, paid_in}
