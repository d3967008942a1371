-- ===== src/Game.antt =====
-- internal/game: the client of one player.
pub mod Slots
pub mod Admission
pub mod Stage
pub mod Choice
pub mod Setup
pub mod Journal
pub mod Hand
pub mod Codec
