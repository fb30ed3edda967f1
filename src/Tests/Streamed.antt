-- ===== src/Tests/Streamed.antt =====
-- The streaming run and the order of messages at concrete inputs.
use ferrous_runtime.Prelude.{
  ◌≡◌, ◌≤◌, ◌∷◌, ◌+◌, ◌*◌, [], ℕ, List, none, some, true, false, length, arith,
}
use ferrous_runtime.Command.Session.{stdout, stderr}
use ferrous_runtime.Runtime.Store.{Store}
use ferrous_runtime.Runtime.Execute.{run_wasi_inner, reported_failure}
use ferrous_runtime.Runtime.Stream.Invariant.{streamed}
use ferrous_runtime.Runtime.Events.{
  Reading, StreamedRun, run_wasi_events, guest_writes, reader_reads,
}
use ferrous_runtime.Runtime.Events.Captured.{last_run, captured, streamed_as_captured}
use ferrous_runtime.Broker.Calls.{initial}
use ferrous_runtime.Broker.Step.{run}
use ferrous_runtime.Broker.Order.{stage_without, is_question, is_end, is_broken}
use ferrous_runtime.Broker.Order.Whole.{messages_in_order}
use ferrous_runtime.Tests.Brokers.{life}
use ferrous_runtime.Tests.Fixtures.{reading_grant, plain_host, request_with}
use ferrous_runtime.Tests.Resolved.{plain_store, plain-built}

messages_in_order_example :
    let sent = (run life (initial 2 30)).sent in
    (is_broken (stage_without is_question 0 sent) ≡ false)
    × (is_broken (stage_without is_end 0 sent) ≡ false)
messages_in_order_example = messages_in_order 2 30 life 0

abbrev eight_steps : List Reading
eight_steps =
    (false, 1)
    ∷ (false, 2)
    ∷ (false, 3)
    ∷ (false, 4)
    ∷ (false, 105)
    ∷ (false, 106)
    ∷ (false, 107)
    ∷ (false, 108)
    ∷ []

-- A guest that writes while the reader drains, and reports a failure.
abbrev writing_guest : Store → StreamedRun ℕ
writing_guest store = record {
  now = 0;
  instantiating = (false, 0) ∷ [];
  instantiate_error = none;
  turns =
      guest_writes stdout (7 ∷ 8 ∷ [])
      ∷ reader_reads (false, 1)
      ∷ guest_writes stderr (9 ∷ [])
      ∷ reader_reads (false, 1)
      ∷ [];
  result = reported_failure;
  cancelled_at_end = false;
  stdout_ended = (false, 1) ∷ [];
  stderr_ended = eight_steps;
}

streamed_as_captured_example :
    let request = request_with 1 reading_grant in
    let events = (last_run request (writing_guest plain_store)).events in
    let capturing = captured request writing_guest in
    (run_wasi_events plain_host 0 writing_guest request
      ≡ some (run_wasi_inner plain_host capturing request true, events))
    × (streamed stdout events ≡ (capturing plain_store).stdout)
    × (streamed stderr events ≡ (capturing plain_store).stderr)
    × (length (capturing plain_store).stdout + length (capturing plain_store).stderr
        ≤ 2 * request.grant.limits.max_output_bytes)
streamed_as_captured_example =
    streamed_as_captured plain_host 0 writing_guest (request_with 1 reading_grant) plain_store
      plain-built (omega arith)
