-- ===== src/Chess/Rules.antt =====
-- kachat-webserver/src/chess.rs: the rules engine.
pub mod Board
pub mod Attack
pub mod Moves
pub mod Apply
pub mod Legal
pub mod Rays
pub mod Targets
mod Reach
pub mod Sound
mod Tests
