-- ===== src/Querier.antt =====
-- packages/anchor_token/src/querier.rs: the queries of balances, supply and tax, and the deduction
-- of the native tax.
pub mod Types
pub mod Queries
pub mod Tax
mod Tests
