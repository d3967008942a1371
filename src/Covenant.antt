-- ===== src/Covenant.antt =====
-- internal/covenant: the agreement, its live actions and its settlements.
pub mod Types
pub mod Phase
pub mod Amounts
pub mod Reveals
pub mod Betting
pub mod Live
pub mod Packets
pub mod Build
pub mod Terminal
