-- ===== src/Airdrop.antt =====
-- contracts/airdrop: claims against a Merkle root for each stage.
pub mod Types
pub mod Merkle
pub mod Contract
pub mod Tree
pub mod Claimed
pub mod Tests
pub mod Forgery
pub mod Descent
pub mod Sound
