-- ===== src/Storage.antt =====
-- internal/storage: the log of a wallet's games.
pub mod Records
