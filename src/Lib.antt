-- ===== src/Lib.antt =====
-- ferrous-runtime: a capability-secured runtime for WASI components (crates/wasi-runtime).
--
-- A caller describes what a command may do by a grant, puts the grant into a request, and gives the
-- request to a broker. The broker queues it, parks it until a human approves it if it is risky, and runs
-- it in the WASI runtime, which opens to the guest what the grant says, bounds its memory, fuel, time
-- and output, and streams its output. Here every part is a pure model, and the parts are composed as
-- in the source.
--
-- Parts and files:
-- - crates/wasi-runtime/src/capability.rs: Capability/Limits (`ResourceLimits`), Capability/Filesystem
--   (`FilesystemGrant`, the lexical checks, and in Guest the texts of guest paths), Capability/Grant
--   (`CapabilityGrant` and its builder methods), Capability/Resolve (the checks that ask the file
--   system). A method that consumes `self` is a function from grant to grant or error.
-- - crates/wasi-runtime/src/command.rs: Command/Request (`CommandRequest`, `validate`) and
--   Command/Session (`SessionState`, whose `accept` returns the new state and the result).
-- - crates/wasi-runtime/src/policy.rs: Policy (`NetworkPolicy`, `selected_environment`,
--   `classify_risk`). The builder of a WASI context is the list of the calls made on it (Wasi).
-- - crates/wasi-runtime/src/native.rs: Native. crates/wasi-runtime/src/cancel.rs: Cancel, where a
--   handle is a reference to a flag of a shared store, so that clones share the flag.
-- - crates/wasi-runtime/src/pipe.rs: Pipe, the state under the lock; `usize` subtraction wraps, and a
--   slice out of range is a panic.
-- - crates/wasi-runtime/src/lib.rs: Runtime/Store (`build_store`), Runtime/Execute (`run_wasi_inner`
--   and its callers), Runtime/Watchdog (the watchdog thread), Runtime/Stream (the reader thread of
--   `run_wasi_events_impl`, one function for each part of its loop, and the guest's writes) and
--   Runtime/Events (`run_wasi_events` as one function of the guest and of the threads' steps).
-- - crates/wasi-runtime/src/broker.rs: Broker/State (the shared state, the channels), Broker/Calls (the
--   methods of `ActionBroker`), Broker/Worker (`process_job` and `execute`, in two halves around the
--   call into the runtime), Broker/Sweeper (`sweeper_loop` and `Drop`) and Broker/Step (the actions
--   of callers, worker, sweeper and receivers, in any order). There a method is one step, which the
--   source does not promise: it drops each lock after one access, and `park`, for one, enters a
--   session and asks its receiver with no lock held in between. So Broker/Locks cuts the same code
--   into its single accesses to the shared state, and Broker/Locks/System lets the threads take turns
--   between any two of them. The modules beside these are proofs: Tally, Once and Accounted on the
--   ends of sessions, Approval on the gate, Order on the order of messages, Stopped on cancelled
--   sessions, Capacity, Bounds and Audit on sizes, and Decide.
-- - Prelude, Text, SortedSet, FilePath, HashMap: the standard library's lists, strings as their
--   characters, `BTreeSet`, `Path` on Unix as its components (FilePath/Parse: from its text), and
--   `HashMap`. Tests: the theorems at concrete inputs, and in Tests/Unit the tests of the sources, run
--   on the model; for those of the broker, Tests/Unit/Scripts says how threads and guests are given.
--
-- Bounds and fuel: natural numbers stand for `u64` and `usize`; where the source adds, multiplies or
-- subtracts them, the overflow is written out (`checked_add`, `saturating_mul`, wrapping subtraction).
-- Only the walk to the nearest existing ancestor runs on fuel, the number of components and one more.
-- Times are in milliseconds. All other loops are structural.
--
-- Outside the model: `fs::canonicalize`, the host's environment, the calls of wasmtime that can fail, and
-- the guest are parameters (`Host`, `GuestRun`, `StreamedRun`). Compiling components, the engine's
-- configuration and poisoned locks are left out, and so are the hooks compiled for tests only. The
-- accesses of threads are taken to be ordered, as mutexes and channels order them, and a sweep may come
-- after the drop of the broker too. The order in which the sweeper iterates the map of parked sessions
-- is a parameter. The epoch is a counter, and that a guest stops at its deadline is wasmtime's part.
pub mod Prelude
pub mod Text
pub mod SortedSet
pub mod FilePath
pub mod Capability
pub mod Command
pub mod Wasi
pub mod Policy
pub mod Native
pub mod Cancel
pub mod Pipe
pub mod Runtime
pub mod HashMap
pub mod Broker
pub mod Tests
