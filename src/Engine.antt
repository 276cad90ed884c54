-- ===== src/Engine.antt =====
-- Package bitboxsync: the sync engine.
pub mod State
pub mod Ensures
