-- ===== src/Core.antt =====
-- crates/premonition-core/src: the safety policy that the daemon calls.
pub mod Error
pub mod Model
pub mod System
pub mod Repository
pub mod Catalog
pub mod Enumeration
pub mod Snapshot
pub mod Policy
