-- ===== src/Names.antt =====
-- kachat-names: the codec, the transitions, the applier and the follower of the names registry.
pub mod Externals
pub mod Hashes
pub mod Num8
pub mod Script
pub mod States
pub mod Transition
pub mod Moves
pub mod Templates
pub mod Tx
pub mod Profile
pub mod Registry
pub mod Follower
mod Tests
