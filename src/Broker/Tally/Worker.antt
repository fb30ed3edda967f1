-- ===== src/Broker/Tally/Worker.antt =====
-- The tally of a channel in the worker of crates/wasi-runtime/src/broker.rs.
use ferrous_runtime.Prelude.{
  refl, ◌==◌, ℕ, ◌≤◌, ◌≡◌, arith, ◌+◌, Option-cases, some, inl, inr, Result, List, none, ◌∷◌, [],
  err, ok, Option, ap,
}
use ferrous_runtime.HashMap
use ferrous_runtime.Command.Session
use ferrous_runtime.Broker.State.{
  Broker, Message, Job, JobSink, ChannelId, Terminal, ApprovalDecision, AuditOutcome, sink_channel,
  release, record_entry, PendingJob, BrokerOutcome, Active,
}
use ferrous_runtime.Broker.Calls.{cancel}
use ferrous_runtime.Broker.Tally.{
  tally, is_terminal, holds, parked-insert-le, parked-remove-le, queued, Within, in_runtime,
  one_if-and-le,
}
use ferrous_runtime.Broker.Worker.{
  complete, orphaned, announce_start, start_execution, park, begin_job, dispatch_risk,
  notify_parked, start_accepted, start_cancelled, start_refused, take_from, stream_to,
  finish_active, panic_active, final_message,
}
use ferrous_runtime.Command.Request.{invalid_transition, ApprovalReason}
use ferrous_runtime.Command.Session.{Stream, SessionEvent, Accepted}
use ferrous_runtime.Runtime.Store.{RuntimeError, WasiOutput}
use ferrous_runtime.Policy.{Risk, classify_risk}
use ferrous_runtime.Broker.Tally.Calls.{send-Within, send_terminal-Within}

module _ {C E : Type 0} (c : ChannelId) where
  module _ (job : Job C) (s : Broker C E) where
    pub complete-Within :
        (d : ApprovalDecision) (o : AuditOutcome) → Within c 0 s (complete job d o s)
    unfolding complete release record_entry tally
    complete-Within d o = (omega arith, refl)

    pub orphaned-Within : Within c (holds c job.sink) s (orphaned job s)
    unfolding orphaned release tally
    orphaned-Within =
        send_terminal-Within c job.sink
          (Terminal.denied_with (invalid_transition "session handle disappeared before start")) s

  pub announce_start-Within :
      (sink : JobSink) (s : Broker C E) → Within c 0 s (announce_start sink s)
  unfolding announce_start
  announce_start-Within (JobSink.outcome d) s = (omega arith, refl)
  announce_start-Within (JobSink.events d) s =
      ground (arith, send-Within c d (Message.event SessionEvent.started) s)

  pub notify_parked-Within :
      (sink : JobSink) (reason : ApprovalReason) (s : Broker C E)
      → Within c 0 s (notify_parked sink reason s).0
  unfolding notify_parked
  notify_parked-Within (JobSink.outcome d) reason s =
      ground (arith, send-Within c d (Message.outcome (BrokerOutcome.pending_approval reason)) s)
  notify_parked-Within (JobSink.events d) reason s =
      ground (arith, send-Within c d (Message.event (SessionEvent.pending_approval reason)) s)

  pub start_accepted-Within :
      (job : Job C) (cancel : ℕ) (d : ApprovalDecision) (a : Accepted) (s : Broker C E)
      → Within c (holds c job.sink) s (start_accepted job cancel d a s)
  unfolding start_accepted start_refused complete release record_entry tally
  start_accepted-Within job cancel d (session, err e) s =
      send_terminal-Within c job.sink
        (Terminal.denied_with (invalid_transition "session cannot start")) s
  start_accepted-Within job cancel d (session, ok _) s =
      let (less, same) = announce_start-Within job.sink s in (omega arith, same)

  module _ (job : Job C) (s : Broker C E) where
    pub start_cancelled-Within :
        (d : ApprovalDecision) → Within c (holds c job.sink) s (start_cancelled job d s)
    unfolding start_cancelled complete release record_entry tally
    start_cancelled-Within d = send_terminal-Within c job.sink Terminal.cancelled s

    pub start_execution-Within :
        (cancel : ℕ) (d : ApprovalDecision)
        → Within c (holds c job.sink) s (start_execution job cancel d s)
    unfolding start_execution
    start_execution-Within cancel d = ground (
      arith,
      start_cancelled-Within d,
      start_accepted-Within job cancel d (Session.accept job.session SessionEvent.started) s,
    )

    pub park-Within :
        (reason : ApprovalReason) (now : ℕ) → Within c (holds c job.sink) s (park job reason now s)
    unfolding park release tally
    park-Within reason now =
        let asked = (Session.accept job.session (SessionEvent.pending_approval reason)).0 in
        let parked_job : PendingJob C = record {
          job = record job { session = asked };
          deadline = now + s.approval_timeout;
        } in
        let s' = record s { pending = HashMap.insert job.request.id parked_job s.pending } in
        ground (
          arith,
          notify_parked-Within job.sink reason s',
          parked-insert-le c job.request.id parked_job s.pending,
          parked-remove-le c job.request.id (notify_parked job.sink reason s').0.pending,
        )

    pub dispatch_risk-Within :
        (risk : Risk) (cancel now : ℕ)
        → Within c (holds c job.sink) s (dispatch_risk risk job cancel now s)
    unfolding dispatch_risk
    dispatch_risk-Within Risk.auto_approve cancel now = start_execution-Within cancel job.admission
    dispatch_risk-Within (Risk.requires_approval reason) cancel now =
        ground
          (arith, start_execution-Within cancel ApprovalDecision.approved, park-Within reason now)

    pub begin_job-Within : (now : ℕ) → Within c (holds c job.sink) s (begin_job now job s)
    unfolding begin_job
    begin_job-Within now = elim (Option-cases (HashMap.get job.request.id s.handles)) [
      | inl e ↦ rw (e, begin_job) (orphaned-Within job s)
      | inr (cancel, e) ↦
          rw (e, begin_job) (dispatch_risk-Within (classify_risk job.request) cancel now)
    ]

  pub take_from-Within :
      (now : ℕ) (o : Option (Active C)) (jobs : List (Job C)) (s : Broker C E)
      → s.queue ≡ jobs
      → Within c 0 s (take_from now o jobs s)
  unfolding take_from tally queued
  take_from-Within now none (job ∷ rest) s e =
      let (less, same) = begin_job-Within job (record s { queue = rest }) now in
      (omega (arith, ap (queued c) e), same)
  take_from-Within now none [] s e = (omega arith, refl)
  take_from-Within now (some a) jobs s e = (omega arith, refl)

  pub stream_sink-Within :
      (sink : JobSink) (stream : Stream) (bytes : List ℕ) (a : Active C) (s : Broker C E)
      → a.job.sink ≡ sink
      → Within c 0 s (stream_to (some a) stream bytes s)
  unfolding stream_to
  stream_sink-Within (JobSink.outcome d) stream bytes a s e = rw (e, stream_to) (omega arith, refl)
  stream_sink-Within (JobSink.events d) stream bytes a s e =
      rw (e, stream_to) (send-Within c d (Message.event (SessionEvent.output stream bytes)) s)

  pub stream_to-Within :
      (o : Option (Active C)) (stream : Stream) (bytes : List ℕ) (s : Broker C E)
      → Within c 0 s (stream_to o stream bytes s)
  unfolding stream_to
  stream_to-Within none stream bytes s = (omega arith, refl)
  stream_to-Within (some a) stream bytes s = stream_sink-Within a.job.sink stream bytes a s refl

  module _ (a : Active C) (s : Broker C E) (e : s.active ≡ some a) where
    -- A job that has left the runtime may send one message.
    pub left_runtime : tally c (record s { active = none }) + holds c a.job.sink ≤ tally c s
    unfolding tally
    left_runtime = omega (arith, ap (in_runtime c) e)

    pub finished-Within :
        (r : Result (RuntimeError E) WasiOutput) → Within c 0 s (finish_active r (some a) s)
    unfolding finish_active complete release record_entry tally
    finished-Within r =
        let m = final_message a.job.sink r in
        let (less, same) = send-Within c (sink_channel a.job.sink) m (record s { active = none }) in
        (
          omega (arith, left_runtime, one_if-and-le (is_terminal m) (sink_channel a.job.sink == c)),
          same,
        )

  pub finish_active-Within :
      (o : Option (Active C)) (r : Result (RuntimeError E) WasiOutput) (s : Broker C E)
      → s.active ≡ o
      → Within c 0 s (finish_active r o s)
  unfolding finish_active
  finish_active-Within none r s e = (omega arith, refl)
  finish_active-Within (some a) r s e = finished-Within a s e r

  pub panic_active-Within :
      (o : Option (Active C)) (s : Broker C E) → s.active ≡ o → Within c 0 s (panic_active o s)
  unfolding panic_active complete release record_entry tally
  panic_active-Within none s e = (omega arith, refl)
  panic_active-Within (some a) s e =
      let (less, same) =
        send_terminal-Within c a.job.sink
          (Terminal.denied_with (invalid_transition "worker panic while executing session"))
          (record s { active = none }) in
      (omega (arith, left_runtime a s e), same)
