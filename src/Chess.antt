-- ===== src/Chess.antt =====
-- kachat-webserver/src/chess.rs: the rules of chess, the tournaments' reducer and the leaderboards.
pub mod Rules
pub mod Arena
pub mod Calendar
pub mod Leaderboard
pub mod Snapshot
pub mod Bots
mod Tests
