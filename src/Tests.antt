-- ===== src/Tests.antt =====
-- Concrete runs: a small world for the engine, and the theorems at concrete inputs.
pub mod World
mod Examples
mod Timing
pub mod Signing
mod Keystore
mod Origin
mod Checks
