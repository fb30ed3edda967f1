-- ===== src/Tests/Unit/Approvals.antt =====
-- The tests in crates/wasi-runtime/src/broker.rs of approvals, of the audit trail and of panics, and
-- the rest of those of streaming. In each the worker takes a session when the test waits for it.
use ferrous_runtime.Broker.Sweeper.{Iteration, expired, sweep}
use ferrous_runtime.Broker.Worker.{final_message, take_job, finish_job, panic_job}
use ferrous_runtime.Prelude.{
  ◌≡◌, ◌&&◌, ◌∷◌, ◌>>=◌, ◌==◌, [], Bool, true, false, none, ℕ, List, Result, ok, err, refl, length,
  any,
}
use ferrous_runtime.Text.{text, text_eq}
use ferrous_runtime.HashMap
use ferrous_runtime.Cancel
use ferrous_runtime.FilePath.{is_absolute, starts_with, component_eq}
use ferrous_runtime.FilePath.Parse.{from_text}
use ferrous_runtime.Capability.Filesystem
use ferrous_runtime.Capability.Filesystem.{allows, is_safe_absolute_path}
use ferrous_runtime.Capability.Limits
use ferrous_runtime.Capability.Limits.{with_fuel, with_unlimited_fuel}
use ferrous_runtime.Capability.Grant.{workspace, with_limits, allows_path, allows_native_execution}
use ferrous_runtime.Command.Request
use ferrous_runtime.Command.Request.{validate, contains_nul, agent}
use ferrous_runtime.Command.Session
use ferrous_runtime.Policy.{classify_risk}
use ferrous_runtime.Broker.State.{
  Broker, BrokerError, AuditEntry, ApprovalDecision, AuditOutcome, record_entry, send_terminal,
  release, push_entry,
}
use ferrous_runtime.Broker.Calls.{
  submit, submit_streaming, cancel, with_config, approve, deny, audit_trail,
}
use ferrous_runtime.Broker.Step.{takes_job, finishes, panics, sweeps, run, step}
use ferrous_runtime.Tests.Unit.Scripts.{
  expect, passes, grant, write_grant, request, new_broker, hello, interrupted, hears, is_completed,
  is_cancelled, is_denied, is_pending, is_started, is_exited, fit, submitted, streaming, allowed,
}

abbrev read_only_command_runs_without_approval : Bool
read_only_command_runs_without_approval = passes do
  broker ← new_broker
  asked ← request 1 (text "hello") (grant 30 1_000_000)
  (receiver, queued) ← submitted asked broker
  ok (hears (is_completed ∷ []) receiver (run (takes_job 0 ∷ finishes hello ∷ []) queued))

abbrev risky_command_emits_pending_approval_then_runs_after_approve : Bool
risky_command_emits_pending_approval_then_runs_after_approve = passes do
  broker ← new_broker
  asked ← request 1 (text "hello") (write_grant 30 1_000_000)
  (receiver, queued) ← submitted asked broker
  -- The worker is free, but there is no other job; nothing is in the runtime that could end.
  let parked = run (takes_job 0 ∷ takes_job 200 ∷ finishes hello ∷ []) queued
  approved ← allowed (approve 1 parked)
  ok (
      hears (is_pending ∷ []) receiver parked
      && hears (is_completed ∷ is_pending ∷ []) receiver
          (run (takes_job 200 ∷ finishes hello ∷ []) approved))

abbrev denied_command_never_runs : Bool
denied_command_never_runs = passes do
  broker ← new_broker
  asked ← request 1 (text "hello") (write_grant 30 1_000_000)
  (receiver, queued) ← submitted asked broker
  let parked = run (takes_job 0 ∷ []) queued
  denied ← allowed (deny 1 parked)
  ok (
      hears (is_pending ∷ []) receiver parked
      && hears (is_denied ∷ is_pending ∷ []) receiver
          (run (takes_job 200 ∷ finishes hello ∷ []) denied))

-- With one parked session there is one order only.
abbrev as_stored : Iteration ℕ
as_stored pending = pending

abbrev approval_timeout_auto_denies : Bool
approval_timeout_auto_denies = passes do
  broker ← expect (with_config none 64 300)
  asked ← request 1 (text "hello") (write_grant 30 1_000_000)
  (receiver, queued) ← submitted asked broker
  -- The sweeper comes every 100 ms.
  let waiting =
      run (takes_job 50 ∷ sweeps as_stored 100 ∷ sweeps as_stored 200 ∷ sweeps as_stored 300 ∷ [])
        queued
  let ended = run (sweeps as_stored 400 ∷ []) waiting
  ok (
      hears (is_pending ∷ []) receiver waiting
      && hears (is_denied ∷ is_pending ∷ []) receiver ended
      && length ended.pending == 0)

abbrev cancel_of_pending_session_reports_cancelled : Bool
cancel_of_pending_session_reports_cancelled = passes do
  broker ← new_broker
  asked ← request 1 (text "hello") (write_grant 30 1_000_000)
  (receiver, queued) ← submitted asked broker
  let parked = run (takes_job 0 ∷ []) queued
  cancelled ← allowed (cancel 1 parked)
  ok (
      hears (is_pending ∷ []) receiver parked
      && hears (is_cancelled ∷ is_pending ∷ []) receiver cancelled
      && length cancelled.pending == 0)

abbrev is_not_pending : ℕ → Broker ℕ ℕ × Result (BrokerError ℕ) (Unit {0}) → Bool
is_not_pending id (s, err (BrokerError.not_pending_approval other)) = other == id
is_not_pending id _ = false

abbrev approve_of_non_pending_session_errors : Bool
approve_of_non_pending_session_errors = passes do
  broker ← new_broker
  ok (is_not_pending 999 (approve 999 broker) && is_not_pending 999 (deny 999 broker))

-- The entries that the test of the audit trail expects.
abbrev is_recorded : List AuditEntry → Bool
is_recorded (first ∷ second ∷ third ∷ []) =
    text_eq first.program (text "hello")
    && elim first.decision [ ApprovalDecision.auto_approved ↦ true | _ ↦ false ]
    && elim second.decision [ ApprovalDecision.approved ↦ true | _ ↦ false ]
    && elim third.decision [ ApprovalDecision.denied ↦ true | _ ↦ false ]
    && elim third.outcome [ AuditOutcome.denied ↦ true | _ ↦ false ]
is_recorded _ = false

abbrev audit_trail_records_decisions : Bool
audit_trail_records_decisions = passes do
  broker ← new_broker
  harmless ← request 1 (text "hello") (grant 30 1_000_000)
  (receiver, queued) ← submitted harmless broker
  let first = run (takes_job 0 ∷ finishes hello ∷ []) queued
  writing ← request 2 (text "hello") (write_grant 30 1_000_000)
  (receiver_of_writing, queued_writing) ← submitted writing first
  approved ← allowed (approve 2 (run (takes_job 0 ∷ []) queued_writing))
  let second = run (takes_job 0 ∷ finishes hello ∷ []) approved
  refused ← request 3 (text "hello") (write_grant 30 1_000_000)
  (receiver_of_refused, queued_refused) ← submitted refused second
  third ← allowed (deny 3 (run (takes_job 0 ∷ []) queued_refused))
  ok (
      hears (is_completed ∷ []) receiver third
      && hears (is_completed ∷ is_pending ∷ []) receiver_of_writing third
      && hears (is_denied ∷ is_pending ∷ []) receiver_of_refused third
      && is_recorded (audit_trail third))

abbrev streaming_risky_command_emits_pending_approval : Bool
streaming_risky_command_emits_pending_approval = passes do
  broker ← new_broker
  asked ← request 1 (text "hello") (write_grant 30 1_000_000)
  (events, queued) ← streaming asked broker
  let parked = run (takes_job 0 ∷ []) queued
  approved ← allowed (approve 1 parked)
  ok (
      hears (is_pending ∷ []) events parked
      && hears (is_exited ∷ is_started ∷ is_pending ∷ []) events
          (run (takes_job 0 ∷ finishes hello ∷ []) approved))

-- `a` is cancelled in the runtime or before it starts.
abbrev streaming_cancel_before_start_skips_a_queued_action : Bool
streaming_cancel_before_start_skips_a_queued_action = passes do
  broker ← new_broker
  request_a ← request 1 (text "spin-a") (grant 60 4_000_000_000)
  request_b ← request 2 (text "hello-b") (grant 30 1_000_000)
  (events_a, first) ← streaming request_a broker
  (events_b, second) ← streaming request_b first
  unskipped ← allowed (cancel 2 (run (takes_job 0 ∷ []) second))
  started ← allowed (cancel 1 unskipped)
  let early = run (finishes interrupted ∷ takes_job 0 ∷ []) started
  skipped ← allowed (cancel 2 second)
  unstarted ← allowed (cancel 1 skipped)
  let late = run (takes_job 0 ∷ takes_job 0 ∷ []) unstarted
  ok (
      hears (is_cancelled ∷ []) events_b early
      && hears (is_cancelled ∷ is_started ∷ []) events_a early
      && hears (is_cancelled ∷ []) events_b late
      && hears (is_cancelled ∷ []) events_a late)

abbrev is_failed_entry : ℕ → AuditEntry → Bool
is_failed_entry id entry =
    entry.id == id && elim entry.outcome [ AuditOutcome.failed ↦ true | _ ↦ false ]

abbrev worker_panic_is_contained_and_the_queue_survives : Bool
worker_panic_is_contained_and_the_queue_survives = passes do
  broker ← new_broker
  request_a ← request 1 (text "spin-a") (grant 30 1_000_000)
  (receiver_a, queued_a) ← submitted request_a broker
  let failed = run (takes_job 0 ∷ panics ∷ []) queued_a
  request_b ← request 2 (text "hello-b") (grant 30 1_000_000)
  (receiver_b, queued_b) ← submitted request_b failed
  let ended = run (takes_job 0 ∷ finishes hello ∷ []) queued_b
  ok (
      hears (is_denied ∷ []) receiver_a failed
      && hears (is_completed ∷ []) receiver_b ended
      && elim (cancel 1 ended).1 [ err (BrokerError.unknown_session id) ↦ id == 1 | _ ↦ false ]
      && any (is_failed_entry 1) (audit_trail ended))

approvals_pass :
    (read_only_command_runs_without_approval
      && risky_command_emits_pending_approval_then_runs_after_approve && denied_command_never_runs
      && approval_timeout_auto_denies && cancel_of_pending_session_reports_cancelled
      && approve_of_non_pending_session_errors && audit_trail_records_decisions
      && streaming_risky_command_emits_pending_approval
      && streaming_cancel_before_start_skips_a_queued_action
      && worker_panic_is_contained_and_the_queue_survives)
    ≡ true
unfolding workspace Filesystem.new is_safe_absolute_path is_absolute from_text text_eq allows_path
    allows starts_with component_eq Limits.new with_fuel with_limits Request.new validate
    contains_nul allows_native_execution fit HashMap.get HashMap.insert Cancel.is_cancelled
    Cancel.new Cancel.cancel Session.accept Session.new send_terminal release record_entry
    push_entry submit submit_streaming approve deny cancel with_config audit_trail final_message
    take_job finish_job panic_job expired sweep run step classify_risk
approvals_pass = refl
