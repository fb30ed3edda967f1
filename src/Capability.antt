-- ===== src/Capability.antt =====
-- crates/wasi-runtime/src/capability.rs: the authority and the limits granted to one session.
pub mod Limits
pub mod Filesystem
pub mod Grant
pub mod Resolve
