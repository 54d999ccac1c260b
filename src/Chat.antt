-- ===== src/Chat.antt =====
-- kasia-indexer/protocol/src: the chat protocol.
pub mod Operation
pub mod Deserializer
mod Tests
