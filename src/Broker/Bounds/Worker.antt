-- ===== src/Broker/Bounds/Worker.antt =====
-- The sizes of the shared state of crates/wasi-runtime/src/broker.rs in the worker's steps.
use ferrous_runtime.Prelude.{
  ℕ, Result, Option, arith, Option-cases, List, err, inl, ◌∷◌, some, ok, inr, none, refl, ◌+◌, [],
}
use ferrous_runtime.HashMap
use ferrous_runtime.Command.Session
use ferrous_runtime.Broker.State.{
  Terminal, Job, JobSink, ApprovalDecision, Broker, send, AuditOutcome, Active, send_terminal,
  release, Message, entry_of, BrokerOutcome, PendingJob, sink_channel,
}
use ferrous_runtime.Broker.Calls.{cancel}
use ferrous_runtime.Broker.Worker.{
  announce_start, notify_parked, complete, take_from, stream_to, finish_active, panic_active,
  start_cancelled, start_refused, orphaned, start_accepted, start_execution, park, dispatch_risk,
  begin_job, final_message, audit_of,
}
use ferrous_runtime.Broker.Bounds.{Shrinks, send-Shrinks, ended-Shrinks, send_terminal-Shrinks}
use ferrous_runtime.Command.Request.{ApprovalReason, invalid_transition}
use ferrous_runtime.Runtime.Store.{RuntimeError, WasiOutput}
use ferrous_runtime.Command.Session.{Accepted, Stream, SessionEvent}
use ferrous_runtime.Policy.{Risk, classify_risk}

module _ {C E : Type 0} where
  pub announce_start-Shrinks : (sink : JobSink) (s : Broker C E) → Shrinks s (announce_start sink s)
  unfolding announce_start
  announce_start-Shrinks (JobSink.outcome d) s = (refl, omega arith, omega arith)
  announce_start-Shrinks (JobSink.events d) s =
      send-Shrinks d (Message.event SessionEvent.started) s

  pub notify_parked-Shrinks :
      (sink : JobSink) (reason : ApprovalReason) (s : Broker C E)
      → Shrinks s (notify_parked sink reason s).0
  unfolding notify_parked
  notify_parked-Shrinks (JobSink.outcome d) reason s =
      send-Shrinks d (Message.outcome (BrokerOutcome.pending_approval reason)) s
  notify_parked-Shrinks (JobSink.events d) reason s =
      send-Shrinks d (Message.event (SessionEvent.pending_approval reason)) s

  pub complete-Shrinks :
      (job : Job C) (d : ApprovalDecision) (o : AuditOutcome) (s m : Broker C E)
      → Shrinks s m
      → Shrinks s (complete job d o m)
  unfolding complete
  complete-Shrinks job d o = ended-Shrinks job.request.id (entry_of job.request.id job d o)

  module _ (job : Job C) (s : Broker C E) where
    pub start_cancelled-Shrinks : (d : ApprovalDecision) → Shrinks s (start_cancelled job d s)
    unfolding start_cancelled
    start_cancelled-Shrinks d =
        let told = send_terminal job.sink Terminal.cancelled s in
        complete-Shrinks job d AuditOutcome.cancelled s told
          (send_terminal-Shrinks job.sink Terminal.cancelled s)

    pub start_refused-Shrinks : (d : ApprovalDecision) → Shrinks s (start_refused job d s)
    unfolding start_refused
    start_refused-Shrinks d =
        let t = Terminal.denied_with (invalid_transition "session cannot start") in
        let told = send_terminal job.sink t s in
        complete-Shrinks job d AuditOutcome.denied s told (send_terminal-Shrinks job.sink t s)

    pub orphaned-Shrinks : Shrinks s (orphaned job s)
    unfolding orphaned release
    orphaned-Shrinks =
        let t =
          Terminal.denied_with (invalid_transition "session handle disappeared before start") in
        ground (
          arith,
          send_terminal-Shrinks job.sink t s,
          HashMap.length-remove-le job.request.id (send_terminal job.sink t s).handles,
        )

    pub start_accepted-Shrinks :
        (cancel : ℕ) (d : ApprovalDecision) (a : Accepted)
        → Shrinks s (start_accepted job cancel d a s)
    unfolding start_accepted
    start_accepted-Shrinks cancel d (session, err e) = start_refused-Shrinks d
    start_accepted-Shrinks cancel d (session, ok _) = announce_start-Shrinks job.sink s

    pub start_execution-Shrinks :
        (cancel : ℕ) (d : ApprovalDecision) → Shrinks s (start_execution job cancel d s)
    unfolding start_execution
    start_execution-Shrinks cancel d = ground (
      arith,
      start_cancelled-Shrinks d,
      start_accepted-Shrinks cancel d (Session.accept job.session SessionEvent.started),
    )

    pub park-Shrinks : (reason : ApprovalReason) (now : ℕ) → Shrinks s (park job reason now s)
    unfolding park release
    park-Shrinks reason now =
        let asked = (Session.accept job.session (SessionEvent.pending_approval reason)).0 in
        let parked_job : PendingJob C = record {
          job = record job { session = asked };
          deadline = now + s.approval_timeout;
        } in
        let s' = record s { pending = HashMap.insert job.request.id parked_job s.pending } in
        ground (
          arith,
          notify_parked-Shrinks job.sink reason s',
          HashMap.length-remove-le job.request.id (notify_parked job.sink reason s').0.handles,
        )

    pub dispatch_risk-Shrinks :
        (risk : Risk) (cancel now : ℕ) → Shrinks s (dispatch_risk risk job cancel now s)
    unfolding dispatch_risk
    dispatch_risk-Shrinks Risk.auto_approve cancel now =
        start_execution-Shrinks cancel job.admission
    dispatch_risk-Shrinks (Risk.requires_approval reason) cancel now =
        ground
          (arith, start_execution-Shrinks cancel ApprovalDecision.approved, park-Shrinks reason now)

    pub begin_job-Shrinks : (now : ℕ) → Shrinks s (begin_job now job s)
    unfolding begin_job
    begin_job-Shrinks now = elim (Option-cases (HashMap.get job.request.id s.handles)) [
      | inl e ↦ rw (e, begin_job) orphaned-Shrinks
      | inr (cancel, e) ↦
          rw (e, begin_job) (dispatch_risk-Shrinks (classify_risk job.request) cancel now)
    ]

  pub take_from-Shrinks :
      (now : ℕ) (o : Option (Active C)) (jobs : List (Job C)) (s : Broker C E)
      → Shrinks s (take_from now o jobs s)
  unfolding take_from
  take_from-Shrinks now none (job ∷ rest) s = begin_job-Shrinks job (record s { queue = rest }) now
  take_from-Shrinks now none [] s = (refl, omega arith, omega arith)
  take_from-Shrinks now (some a) jobs s = (refl, omega arith, omega arith)

  pub stream_to-Shrinks :
      (o : Option (Active C)) (stream : Stream) (bytes : List ℕ) (s : Broker C E)
      → Shrinks s (stream_to o stream bytes s)
  unfolding stream_to send
  stream_to-Shrinks none stream bytes s = (refl, omega arith, omega arith)
  stream_to-Shrinks (some a) stream bytes s = ground arith

  pub finish_active-Shrinks :
      (r : Result (RuntimeError E) WasiOutput) (o : Option (Active C)) (s : Broker C E)
      → Shrinks s (finish_active r o s)
  unfolding finish_active
  finish_active-Shrinks r none s = (refl, omega arith, omega arith)
  finish_active-Shrinks r (some a) s =
      let idle = record s { active = none } in
      let told = (send (sink_channel a.job.sink) (final_message a.job.sink r) idle).0 in
      complete-Shrinks a.job a.decision (audit_of r) s told
        (send-Shrinks (sink_channel a.job.sink) (final_message a.job.sink r) idle)

  pub panic_active-Shrinks : (o : Option (Active C)) (s : Broker C E) → Shrinks s (panic_active o s)
  unfolding panic_active
  panic_active-Shrinks none s = (refl, omega arith, omega arith)
  panic_active-Shrinks (some a) s =
      let t = Terminal.denied_with (invalid_transition "worker panic while executing session") in
      let idle = record s { active = none } in
      let told = send_terminal a.job.sink t idle in
      complete-Shrinks a.job a.job.admission AuditOutcome.failed s told
        (send_terminal-Shrinks a.job.sink t idle)
