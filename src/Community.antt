-- ===== src/Community.antt =====
-- contracts/community: the community fund.
pub mod Contract
pub mod Fund
pub mod Tests
