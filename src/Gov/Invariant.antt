-- ===== src/Gov/Invariant.antt =====
-- What a message of the governance contract may change, and what holds between messages.
pub mod Change
pub mod Operations
pub mod Handle
pub mod Index
pub mod Shares
pub mod Deposits
pub mod Ownership
pub mod Votes
pub mod Tallied
pub mod Once
pub mod Executed
