-- ===== src/Tests/Unit/Brokers.antt =====
-- The tests in crates/wasi-runtime/src/broker.rs of the queue, of `cancel` and of streaming. In each
-- the worker takes a session when the test waits for it.
use ferrous_runtime.Broker.Worker.{final_message, take_job, finish_job}
use ferrous_runtime.Prelude.{
  ◌≡◌, ◌&&◌, ◌∷◌, ◌>>=◌, ◌==◌, [], Bool, true, false, ℕ, none, Result, ok, err, refl, length,
}
use ferrous_runtime.Text.{text, text_eq}
use ferrous_runtime.HashMap
use ferrous_runtime.Cancel
use ferrous_runtime.FilePath.{is_absolute, starts_with, component_eq}
use ferrous_runtime.FilePath.Parse.{from_text}
use ferrous_runtime.Capability.Filesystem
use ferrous_runtime.Capability.Filesystem.{allows, is_safe_absolute_path}
use ferrous_runtime.Capability.Limits
use ferrous_runtime.Capability.Limits.{with_fuel, with_unlimited_fuel}
use ferrous_runtime.Capability.Grant.{workspace, with_limits, allows_path, allows_native_execution}
use ferrous_runtime.Command.Request
use ferrous_runtime.Command.Request.{validate, contains_nul}
use ferrous_runtime.Command.Session
use ferrous_runtime.Policy.{classify_risk}
use ferrous_runtime.Broker.State.{Broker, BrokerError, send_terminal, release, record_entry}
use ferrous_runtime.Broker.Calls.{submit, submit_streaming, cancel, with_config}
use ferrous_runtime.Broker.Step.{takes_job, finishes, run, step}
use ferrous_runtime.Tests.Unit.Scripts.{
  expect, passes, grant, request, new_broker, hello, timed_out, interrupted, hears, is_completed,
  is_failed, is_cancelled, is_started, is_exited, fit, submitted, streaming, allowed,
}

abbrev hello_component_reports_exit_code_zero : Bool
hello_component_reports_exit_code_zero = passes do
  broker ← new_broker
  asked ← request 1 (text "hello") (grant 30 1_000_000)
  (receiver, queued) ← submitted asked broker
  ok (hears (is_completed ∷ []) receiver (run (takes_job 0 ∷ finishes hello ∷ []) queued))

abbrev requests_run_in_submission_order : Bool
requests_run_in_submission_order = passes do
  broker ← new_broker
  request_a ← request 1 (text "spin-a") (grant 1 4_000_000_000)
  request_b ← request 2 (text "hello-b") (grant 30 1_000_000)
  (receiver_a, first) ← submitted request_a broker
  (receiver_b, second) ← submitted request_b first
  -- The worker is busy: that it asks for another job has no effect.
  let spinning = run (takes_job 0 ∷ takes_job 100 ∷ []) second
  let ended = run (finishes timed_out ∷ takes_job 1000 ∷ finishes hello ∷ []) spinning
  ok (
      hears [] receiver_b spinning
      && hears (is_failed ∷ []) receiver_a ended
      && hears (is_completed ∷ []) receiver_b ended)

abbrev cancel_interrupts_a_running_guest_and_the_queue_continues : Bool
cancel_interrupts_a_running_guest_and_the_queue_continues = passes do
  broker ← new_broker
  request_a ← request 1 (text "spin-a") (grant 60 4_000_000_000)
  request_b ← request 2 (text "hello-b") (grant 30 1_000_000)
  (receiver_a, first) ← submitted request_a broker
  (receiver_b, second) ← submitted request_b first
  cancelled ← allowed (cancel 1 (run (takes_job 0 ∷ []) second))
  let ended = run (finishes interrupted ∷ takes_job 0 ∷ finishes hello ∷ []) cancelled
  ok (hears (is_cancelled ∷ []) receiver_a ended && hears (is_completed ∷ []) receiver_b ended)

abbrev cancel_before_start_skips_a_queued_action : Bool
cancel_before_start_skips_a_queued_action = passes do
  broker ← new_broker
  request_a ← request 1 (text "spin-a") (grant 60 4_000_000_000)
  request_b ← request 2 (text "hello-b") (grant 30 1_000_000)
  (receiver_a, first) ← submitted request_a broker
  (receiver_b, second) ← submitted request_b first
  skipped ← allowed (cancel 2 (run (takes_job 0 ∷ []) second))
  cancelled ← allowed (cancel 1 skipped)
  let ended = run (finishes interrupted ∷ takes_job 0 ∷ []) cancelled
  ok (hears (is_cancelled ∷ []) receiver_a ended && hears (is_cancelled ∷ []) receiver_b ended)

abbrev is_unknown_session : {A : Type 0} → ℕ → Broker ℕ ℕ × Result (BrokerError ℕ) A → Bool
is_unknown_session id (s, err (BrokerError.unknown_session other)) = other == id
is_unknown_session id _ = false

abbrev cancel_of_an_unknown_session_errors : Bool
cancel_of_an_unknown_session_errors =
    passes do broker ← new_broker; ok (is_unknown_session 999 (cancel 999 broker))

abbrev cancel_is_idempotent_for_a_live_session : Bool
cancel_is_idempotent_for_a_live_session = passes do
  broker ← new_broker
  asked ← request 1 (text "spin") (grant 60 4_000_000_000)
  (receiver, queued) ← submitted asked broker
  once ← allowed (cancel 1 queued)
  twice ← allowed (cancel 1 once)
  ok (hears (is_cancelled ∷ []) receiver (run (takes_job 0 ∷ []) twice))

abbrev completed_sessions_release_their_handles : Bool
completed_sessions_release_their_handles = passes do
  broker ← new_broker
  asked ← request 1 (text "hello") (grant 30 1_000_000)
  (receiver, queued) ← submitted asked broker
  let ended = run (takes_job 0 ∷ finishes hello ∷ []) queued
  ok (hears (is_completed ∷ []) receiver ended && length ended.handles == 0)

abbrev cancel_after_completion_reports_unknown_session : Bool
cancel_after_completion_reports_unknown_session = passes do
  broker ← new_broker
  asked ← request 1 (text "hello") (grant 30 1_000_000)
  (receiver, queued) ← submitted asked broker
  let ended = run (takes_job 0 ∷ finishes hello ∷ []) queued
  ok (is_unknown_session 1 (cancel 1 ended))

abbrev is_queue_full : {A : Type 0} → Broker ℕ ℕ × Result (BrokerError ℕ) A → Bool
is_queue_full (s, err BrokerError.queue_full) = true
is_queue_full _ = false

abbrev queue_rejects_submissions_beyond_capacity : Bool
queue_rejects_submissions_beyond_capacity = passes do
  broker ← expect (with_config none 2 30_000)
  request_a ← request 1 (text "spin-a") (grant 60 4_000_000_000)
  request_b ← request 2 (text "spin-b") (grant 60 4_000_000_000)
  request_c ← request 3 (text "spin-c") (grant 60 4_000_000_000)
  (receiver_a, first) ← submitted request_a broker
  (receiver_b, second) ← submitted request_b first
  ok (is_queue_full (submit 0 request_c second))

abbrev zero_capacity_is_rejected : Bool
zero_capacity_is_rejected = elim (with_config {C = ℕ} {E = ℕ} none 0 30_000) [
  | err BrokerError.invalid_capacity ↦ true
  | _ ↦ false
]

abbrev hello_runs_with_unlimited_fuel : Bool
hello_runs_with_unlimited_fuel = passes do
  broker ← new_broker
  granted ← grant 30 1_000_000
  limits ← expect (Limits.new 1_048_576 30)
  asked ← request 1 (text "hello") (ok (with_limits granted (with_unlimited_fuel limits)))
  (receiver, queued) ← submitted asked broker
  ok (hears (is_completed ∷ []) receiver (run (takes_job 0 ∷ finishes hello ∷ []) queued))

abbrev streaming_hello_emits_started_then_exited : Bool
streaming_hello_emits_started_then_exited = passes do
  broker ← new_broker
  asked ← request 1 (text "hello") (grant 30 1_000_000)
  (events, queued) ← streaming asked broker
  let ended = run (takes_job 0 ∷ finishes hello ∷ []) queued
  ok (hears (is_exited ∷ is_started ∷ []) events ended)

abbrev streaming_cancel_interrupts_a_running_guest : Bool
streaming_cancel_interrupts_a_running_guest = passes do
  broker ← new_broker
  asked ← request 1 (text "spin") (grant 60 4_000_000_000)
  (events, queued) ← streaming asked broker
  let started = run (takes_job 0 ∷ []) queued
  cancelled ← allowed (cancel 1 started)
  ok (
      hears (is_started ∷ []) events started
      && hears (is_cancelled ∷ is_started ∷ []) events (run (finishes interrupted ∷ []) cancelled))

queue_passes :
    (hello_component_reports_exit_code_zero && requests_run_in_submission_order
      && cancel_interrupts_a_running_guest_and_the_queue_continues
      && cancel_before_start_skips_a_queued_action && cancel_of_an_unknown_session_errors
      && cancel_is_idempotent_for_a_live_session && completed_sessions_release_their_handles
      && cancel_after_completion_reports_unknown_session
      && queue_rejects_submissions_beyond_capacity && zero_capacity_is_rejected
      && hello_runs_with_unlimited_fuel && streaming_hello_emits_started_then_exited
      && streaming_cancel_interrupts_a_running_guest)
    ≡ true
unfolding workspace Filesystem.new is_safe_absolute_path is_absolute from_text text_eq allows_path
    allows starts_with component_eq Limits.new with_fuel with_limits Request.new validate
    contains_nul allows_native_execution fit HashMap.get HashMap.insert Cancel.is_cancelled
    Cancel.new Cancel.cancel Session.accept Session.new send_terminal release record_entry submit
    submit_streaming cancel with_config final_message take_job finish_job run step classify_risk
queue_passes = refl
