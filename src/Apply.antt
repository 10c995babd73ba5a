-- ===== src/Apply.antt =====
-- The transaction of Apply: crates/premonition-core/src/apply.rs.
pub mod Journal
pub mod World
pub mod Publication
pub mod Transaction
