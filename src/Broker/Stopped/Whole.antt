-- ===== src/Broker/Stopped/Whole.antt =====
-- Cancelled sessions of crates/wasi-runtime/src/broker.rs over whole runs.
use ferrous_runtime.Cancel
use ferrous_runtime.HashMap
use ferrous_runtime.Broker.State.{Broker}
