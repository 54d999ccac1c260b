-- ===== src/Chess/Arena.antt =====
-- kachat-webserver/src/chess.rs: tournaments, from the arena's messages to their state.
pub mod Message
pub mod State
pub mod Bracket
pub mod Play
pub mod Reducer
