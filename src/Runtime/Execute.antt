-- ===== src/Runtime/Execute.antt =====
-- The three entry points of `WasiRuntime`, crates/wasi-runtime/src/lib.rs, around the guest's run.
pub mod Outcome
pub mod Cancelled
use ferrous_runtime.Prelude.{
  ◌>>=◌, ◌>>◌, ◌&&◌, List, Option, ℕ, Bool, Result, ok, false, true, if◌then◌else◌, map_err, err,
}
use ferrous_runtime.Runtime.Store.{
  wasi, cancelled, fail_if, Host, Store, RuntimeError, WasiOutput, build_store,
}
use ferrous_runtime.Command.Request.{CommandRequest}

-- What `call_run` returns: the guest's own result, or a trap.
pub data RunResult (E : Type 0) : Type 0 where
  succeeded reported_failure : RunResult E
  trapped : E → RunResult E

-- The `match` on the result of the guest's run, with the output captured and the cancel flag as it
-- is read there.
unfoldable pub conclude :
    {E : Type 0} → RunResult E → List ℕ → List ℕ → Bool → Result (RuntimeError E) WasiOutput
conclude succeeded stdout_bytes stderr_bytes is_cancelled =
    ok (record { stdout = stdout_bytes; stderr = stderr_bytes; exit_code = 0 })
conclude reported_failure stdout_bytes stderr_bytes is_cancelled =
    ok (record { stdout = stdout_bytes; stderr = stderr_bytes; exit_code = 1 })
conclude (trapped error) stdout_bytes stderr_bytes is_cancelled =
    if is_cancelled then err cancelled else err (wasi error)

-- One guest run as the program observes it. Instantiation may fail; the guest ends with a result,
-- having written two outputs, and the cancel flag is read after a trap.
pub record GuestRun (E : Type 0) : Type 0 where
  pub instantiate_error : Option E
  pub result : RunResult E
  pub stdout : List ℕ
  pub stderr : List ℕ
  pub cancelled_at_end : Bool

module _ {E : Type 0} (host : Host E) where
  -- `run_wasi_inner`. The guest is a function of the store that it runs in. Without a handle there
  -- is no flag to read.
  unfoldable pub run_wasi_inner :
      (Store → GuestRun E) → CommandRequest → Bool → Result (RuntimeError E) WasiOutput
  run_wasi_inner guest request has_handle = do
    store ← build_store host request
    let run : GuestRun E = guest store
    map_err wasi (fail_if run.instantiate_error)
    conclude run.result run.stdout run.stderr (has_handle && run.cancelled_at_end)

  unfoldable pub run_wasi :
      (Store → GuestRun E) → CommandRequest → Result (RuntimeError E) WasiOutput
  unfolding run_wasi_inner
  run_wasi guest request = run_wasi_inner guest request false

  unfoldable pub run_wasi_cancellable :
      (Store → GuestRun E) → CommandRequest → Result (RuntimeError E) WasiOutput
  unfolding run_wasi_inner
  run_wasi_cancellable guest request = run_wasi_inner guest request true
