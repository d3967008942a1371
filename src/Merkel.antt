-- ===== src/Merkel.antt =====
-- internal/merkel: hand ranks and the Merkle tree that commits to them.
pub mod Cards
pub mod Combinations
pub mod Strength
pub mod Ranks
pub mod Tree
