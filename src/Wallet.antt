-- ===== src/Wallet.antt =====
-- internal/wallet: the coins of the wallet.
pub mod Records
pub mod Funding
