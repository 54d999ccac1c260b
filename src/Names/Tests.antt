-- ===== src/Names/Tests.antt =====
-- Test data for kachat-names, and the theorems at concrete inputs.
mod Data
mod Codec
mod Chain
