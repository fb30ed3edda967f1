-- ===== src/Command.antt =====
-- crates/wasi-runtime/src/command.rs: command requests and the state machine of a session.
pub mod Request
pub mod Session
