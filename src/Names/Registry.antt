-- ===== src/Names/Registry.antt =====
-- kachat-names/src/ingest.rs: the applier.
pub mod State
pub mod Outputs
pub mod Prices
pub mod Continue
pub mod Markers
pub mod Apply
pub mod Runs
