-- ===== src/Runtime.antt =====
-- crates/wasi-runtime/src/lib.rs: `WasiRuntime`, which runs one admitted component.
pub mod Store
pub mod Watchdog
pub mod Stream
pub mod Events
pub mod Execute
