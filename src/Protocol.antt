-- ===== src/Protocol.antt =====
-- crates/premonition-protocol/src/lib.rs, the wire contract of the daemon and the command line.
pub mod Error
pub mod SafeId
pub mod Request
pub mod Response
pub mod Frame
