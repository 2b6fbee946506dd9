-- ===== src/Gov/Polls.antt =====
-- contracts/gov/src/contract.rs: the life of a poll, from `create_poll` to `execute_poll`.
pub mod Create
pub mod End
pub mod Close
pub mod Vote
