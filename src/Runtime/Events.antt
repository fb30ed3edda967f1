-- ===== src/Runtime/Events.antt =====
-- `run_wasi_events` of crates/wasi-runtime/src/lib.rs as one function: the store is built, the reader
-- thread is spawned and takes its steps while the guest runs, the pipes are ended, the reader is joined.
pub mod Joined
pub mod Captured
use ferrous_runtime.Prelude.{
  ◌>>=◌, ◌∷◌, ◌++◌, [], ◌+◌, ℕ, Bool, List, Option, none, some, Result, ok, err, map, if◌then◌else◌,
  map_err,
}
use ferrous_runtime.Command.Request.{CommandRequest}
use ferrous_runtime.Command.Session.{Stream, stdout, stderr, SessionEvent}
use ferrous_runtime.Runtime.Store.{
  Host, Store, RuntimeError, WasiOutput, wasi, build_store, epoch_ticks,
}
use ferrous_runtime.Runtime.Execute.{RunResult, conclude}
use ferrous_runtime.Runtime.Stream.{Run, Phase, start, joined}
use ferrous_runtime.Runtime.Stream.Invariant.{Move, moves, reads, writes, ends}

-- The flag and the time that a step of the reader reads.
abbrev pub Reading : Type 0
Reading = Bool × ℕ

-- While the guest runs: a step of the reader, or a write of the guest.
pub data Turn : Type 0 where
  reader_reads : Reading → Turn
  guest_writes : Stream → List ℕ → Turn

-- One streaming run as the program observes it: when it begins, the reader's steps up to the end of the
-- instantiation, which may fail, then the guest's run among more of them, its result and the flag as it
-- is read after a trap, and the reader's steps after each of the two pipes has been ended.
pub record StreamedRun (E : Type 0) : Type 0 where
  pub now : ℕ
  pub instantiating : List Reading
  pub instantiate_error : Option E
  pub turns : List Turn
  pub result : RunResult E
  pub cancelled_at_end : Bool
  pub stdout_ended : List Reading
  pub stderr_ended : List Reading

abbrev pub reading : Reading → Move
reading (cancelled, now) = reads cancelled now

abbrev pub move_of : Turn → Move
move_of (reader_reads r) = reading r
move_of (guest_writes stream bytes) = writes stream bytes

-- The guest writes only if it was instantiated.
abbrev pub guest_turns : {E : Type 0} → Option E → List Turn → List Turn
guest_turns none turns = turns
guest_turns (some e) turns = []

-- The steps of both threads. The pipes are ended one after the other.
abbrev pub schedule : {E : Type 0} → StreamedRun E → List Move
schedule run =
    map reading run.instantiating
    ++ map move_of (guest_turns run.instantiate_error run.turns)
    ++ ends stdout ∷ map reading run.stdout_ended
    ++ ends stderr ∷ map reading run.stderr_ended

module _ {E : Type 0} where
  -- `reader.join()`: nothing if the reader does not end, and an error if it panicked.
  unfoldable pub join_reader : E → Run → Option (Result (RuntimeError E) (List ℕ × List ℕ))
  join_reader reader_failed r =
      if r.panicked
      then some (err (wasi reader_failed))
      else elim r.phase [ joined ↦ some (ok (r.total_stdout, r.total_stderr)) | _ ↦ none ]

  -- After the join: a guest that was never started is reported whatever the reader says.
  unfoldable pub conclude_streamed :
      StreamedRun E → Result (RuntimeError E) (List ℕ × List ℕ) → Result (RuntimeError E) WasiOutput
  unfolding conclude
  conclude_streamed run collected = elim run.instantiate_error [
    | some e ↦ err (wasi e)
    | none ↦ collected >>= λ (out, errs). conclude run.result out errs run.cancelled_at_end
  ]

  -- From the spawning of the reader on, with the events that it sent.
  unfoldable pub stream_run :
      E → ℕ → ℕ → StreamedRun E → Option (Result (RuntimeError E) WasiOutput × List SessionEvent)
  unfolding join_reader conclude_streamed
  stream_run reader_failed budget ticks run =
      let last = moves budget ticks (schedule run) (start budget run.now) in
      elim (join_reader reader_failed last) [
        | none ↦ none
        | some collected ↦ some (conclude_streamed run collected, last.events)
      ]

  -- `run_wasi_events`. The guest and the clock are a function of the store.
  unfoldable pub run_wasi_events :
      Host E
      → E
      → (Store → StreamedRun E)
      → CommandRequest
      → Option (Result (RuntimeError E) WasiOutput × List SessionEvent)
  unfolding stream_run
  run_wasi_events host reader_failed guest request = elim (build_store host request) [
    | err e ↦ some (err e, [])
    | ok store ↦
        let limits = request.grant.limits in
        stream_run reader_failed limits.max_output_bytes (epoch_ticks limits) (guest store)
  ]
