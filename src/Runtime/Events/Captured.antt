-- ===== src/Runtime/Events/Captured.antt =====
-- The streaming run of crates/wasi-runtime/src/lib.rs beside the capturing one.
use ferrous_runtime.Prelude.{
  ◌≡◌, ◌≤◌, ◌++◌, ℕ, List, some, ok, map, refl, true, false, length, arith, ap, ◌∙◌, sym, ◌+◌, ◌*◌,
  ◌>>=◌, map_err, Option-cases, inl, inr,
}
use ferrous_runtime.Pipe
use ferrous_runtime.Command.Request.{CommandRequest}
use ferrous_runtime.Command.Session.{stdout, stderr}
use ferrous_runtime.Runtime.Store.{Host, Store, wasi, fail_if, build_store, epoch_ticks}
use ferrous_runtime.Runtime.Execute.{GuestRun, run_wasi_inner, conclude}
use ferrous_runtime.Runtime.Stream.{Run, start, joined}
use ferrous_runtime.Runtime.Stream.Invariant.{moves, streamed}
use ferrous_runtime.Runtime.Stream.Complete.{stream-IsFaithfulRun, joined_complete}
use ferrous_runtime.Runtime.Events.{
  StreamedRun, reading, schedule, join_reader, conclude_streamed, stream_run, run_wasi_events,
  move_of, guest_turns,
}
use ferrous_runtime.Runtime.Events.Joined.{schedule-joined}

module _ {E : Type 0} where
  -- Where the threads of a streaming run stand when it is over.
  abbrev pub last_run : CommandRequest → StreamedRun E → Run
  last_run request run =
      let limits = request.grant.limits in
      moves limits.max_output_bytes (epoch_ticks limits) (schedule run)
        (start limits.max_output_bytes run.now)

  -- The same guest for a run that captures: it writes what the pipes took.
  abbrev pub captured : CommandRequest → (Store → StreamedRun E) → Store → GuestRun E
  captured request guest store =
      let run = guest store in
      let last = last_run request run in
      record {
        instantiate_error = run.instantiate_error;
        result = run.result;
        stdout = Pipe.contents last.out_pipe;
        stderr = Pipe.contents last.err_pipe;
        cancelled_at_end = run.cancelled_at_end;
      }

  joined_ok :
      (reader_failed : E) (r : Run)
      → r.phase ≡ joined
      → r.panicked ≡ false
      → join_reader reader_failed r ≡ some (ok (r.total_stdout, r.total_stderr))
  unfolding join_reader
  joined_ok reader_failed r j p = rw (p, j, join_reader) refl

  module _ (request : CommandRequest) (run : StreamedRun E)
      (enough : 7 ≤ length run.stderr_ended) where
    last-joined : (last_run request run).phase ≡ joined
    last-joined =
        let limits = request.grant.limits in
        schedule-joined limits.max_output_bytes (epoch_ticks limits)
          (map reading run.instantiating
            ++ map move_of (guest_turns run.instantiate_error run.turns))
          run.stdout_ended run.stderr_ended run.now enough

    stream_run-ends :
        (reader_failed : E)
        → let limits = request.grant.limits in
          let last = last_run request run in
          stream_run reader_failed limits.max_output_bytes (epoch_ticks limits) run
          ≡ some (conclude_streamed run (ok (last.total_stdout, last.total_stderr)), last.events)
    unfolding stream_run
    stream_run-ends reader_failed =
        let last = last_run request run in
        let v =
          stream-IsFaithfulRun request.grant.limits.max_output_bytes
            (epoch_ticks request.grant.limits) run.now (schedule run) in
        rw (joined_ok reader_failed last last-joined v.no_panic, stream_run) refl

    -- What was collected is what the pipes took, and it was all streamed.
    last_complete :
        let limits = request.grant.limits in
        let last = last_run request run in
        (last.total_stdout ≡ Pipe.contents last.out_pipe)
        × (last.total_stderr ≡ Pipe.contents last.err_pipe)
        × (streamed stdout last.events ≡ last.total_stdout)
        × (streamed stderr last.events ≡ last.total_stderr)
        × (length last.total_stdout + length last.total_stderr ≤ 2 * limits.max_output_bytes)
    last_complete =
        let limits = request.grant.limits in
        joined_complete limits.max_output_bytes (epoch_ticks limits) run.now (schedule run) refl
          last-joined

  conclude_same :
      (run : StreamedRun E) (out errs : List ℕ)
      → conclude_streamed run (ok (out, errs)) ≡ (
          map_err wasi (fail_if run.instantiate_error) >>= λ _.
          conclude run.result out errs run.cancelled_at_end)
  unfolding conclude_streamed
  conclude_same run out errs = elim (Option-cases run.instantiate_error) [
    | inl e ↦ rw (e, conclude_streamed) refl
    | inr (x, e) ↦ rw (e, conclude_streamed) refl
  ]

  inner_run :
      (host : Host E) (guest : Store → GuestRun E) (request : CommandRequest) (store : Store)
      → build_store host request ≡ ok store
      → run_wasi_inner host guest request true ≡ (
          map_err wasi (fail_if (guest store).instantiate_error) >>= λ _.
          conclude
            (guest store).result
            (guest store).stdout
            (guest store).stderr
            (guest store).cancelled_at_end)
  unfolding run_wasi_inner
  inner_run host guest request store e = rw (e, run_wasi_inner) refl

  -- If the store is built and the reader takes seven steps after both pipes have ended, then, however
  -- reader and guest interleave: the streaming run returns what the capturing run of a guest returns
  -- that writes what the pipes took, cancellation and failures included; the events that were sent
  -- carry exactly this output; and it has at most twice the budget.
  pub streamed_as_captured :
      (host : Host E) (reader_failed : E) (guest : Store → StreamedRun E) (request : CommandRequest)
      (store : Store)
      → build_store host request ≡ ok store
      → 7 ≤ length (guest store).stderr_ended
      → let events = (last_run request (guest store)).events in
        let capturing = captured request guest in
        (run_wasi_events host reader_failed guest request
          ≡ some (run_wasi_inner host capturing request true, events))
        × (streamed stdout events ≡ (capturing store).stdout)
        × (streamed stderr events ≡ (capturing store).stderr)
        × (length (capturing store).stdout + length (capturing store).stderr
            ≤ 2 * request.grant.limits.max_output_bytes)
  unfolding run_wasi_events
  streamed_as_captured host reader_failed guest request store built enough =
      let run = guest store in
      let last = last_run request run in
      let (out_all, err_all, out_sent, err_sent, within) = last_complete request run enough in
      let returned =
        stream_run-ends request run enough reader_failed
        ∙ ap (λ r. some (r, last.events))
            (ap (λ b. conclude_streamed run (ok (b, last.total_stderr))) out_all
              ∙ ap (λ b. conclude_streamed run (ok (Pipe.contents last.out_pipe, b))) err_all
              ∙ conclude_same run (Pipe.contents last.out_pipe) (Pipe.contents last.err_pipe)
              ∙ sym (inner_run host (captured request guest) request store built)) in
      (
        rw (built, run_wasi_events) returned,
        out_sent ∙ out_all,
        err_sent ∙ err_all,
        omega (arith, ap length out_all, ap length err_all, within),
      )
