-- ===== src/Broker.antt =====
-- crates/wasi-runtime/src/broker.rs: the queue of sessions, the approval gate and the audit trail.
pub mod State
pub mod Calls
pub mod Worker
pub mod Sweeper
pub mod Step
pub mod Tally
pub mod Once
pub mod Stopped
pub mod Capacity
pub mod Approval
pub mod Audit
pub mod Decide
pub mod Bounds
pub mod Order
pub mod Accounted
pub mod Locks
