-- ===== src/Gov/Effects.antt =====
-- What each operation does when it succeeds.
pub mod Polls
pub mod Shares
