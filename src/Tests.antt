-- ===== src/Tests.antt =====
-- Test data, evaluations of the definitions, and the theorems at concrete inputs.
pub mod Patches
pub mod Fixtures
pub mod Daemon
pub mod Wire
pub mod Transaction
pub mod Recovery
pub mod Policy
