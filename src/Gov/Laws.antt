-- ===== src/Gov/Laws.antt =====
-- What the operations of the governance contract promise.
pub mod Tally
pub mod Voting
pub mod Withdrawal
pub mod Execution
pub mod Listing
pub mod Proposal
pub mod Pricing
pub mod Price
pub mod Returns
pub mod Ending
