-- ===== src/Tests.antt =====
-- The theorems of the other modules at concrete inputs.
mod Live
mod Codec
mod Money
mod Settlements
mod Choice
mod Merkel
mod Wallet
mod Setup
mod Showdowns
mod Journal
mod Hand
mod Messages
mod Spends
mod Stored
