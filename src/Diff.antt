-- ===== src/Diff.antt =====
-- crates/premonition-core/src/diff.rs: the narrow unified-diff parser.
pub mod Error
pub mod SafePath
pub mod Headers
pub mod Parse
