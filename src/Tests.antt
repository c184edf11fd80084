-- ===== src/Tests.antt =====
-- Runs of the theorems at concrete inputs.
pub mod Sample
pub mod Buffers
pub mod Stores
pub mod Texts
pub mod Waits
pub mod Harnesses
pub mod Tools
pub mod Codec
pub mod Services
pub mod Programs
pub mod Reports
