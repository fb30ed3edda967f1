-- ===== src/Broker/Worker.antt =====
-- The worker of crates/wasi-runtime/src/broker.rs. `process_job` runs the guest for a long time while
-- calls arrive, so it is two steps: `begin_job` up to the call into the runtime, and `finish_job`
-- from its return. While the runtime runs, it streams output by `stream_output`.
use ferrous_runtime.Prelude.{
  if◌then◌else◌, Bool, Result, err, true, ok, false, some, ℕ, List, ◌+◌, none, [], ◌∷◌, Option,
}
use ferrous_runtime.Cancel
use ferrous_runtime.HashMap
use ferrous_runtime.Command.Session
use ferrous_runtime.Command.Session.{SessionEvent, Stream, Accepted}
use ferrous_runtime.Policy.{Risk, classify_risk}
use ferrous_runtime.Runtime.Store.{RuntimeError, WasiOutput}
use ferrous_runtime.Broker.State.{
  Broker, BrokerOutcome, Job, PendingJob, JobSink, ApprovalDecision, AuditOutcome, Terminal,
  Message, send, send_terminal, sink_channel, record_entry, release, entry_of, Active,
}
use ferrous_runtime.Command.Request.{invalid_transition, ApprovalReason}

abbrev pub is_approved : ApprovalDecision → Bool
is_approved ApprovalDecision.approved = true
is_approved _ = false

-- What a finished run tells: the outcome for a capturing sink, or the event for a streaming one.
-- `PendingApproval` is no outcome of a run.
unfoldable pub outcome_of : {E : Type 0} → Result (RuntimeError E) WasiOutput → BrokerOutcome E
outcome_of (ok output) = BrokerOutcome.completed output
outcome_of (err RuntimeError.cancelled) = BrokerOutcome.cancelled
outcome_of (err RuntimeError.wrong_mode) =
    BrokerOutcome.denied (invalid_transition "non-WASI request reached the WASI backend")
outcome_of (err e) = BrokerOutcome.failed e

unfoldable pub event_of : {E : Type 0} → Result (RuntimeError E) WasiOutput → SessionEvent
event_of (ok output) = SessionEvent.exited (some output.exit_code)
event_of (err RuntimeError.cancelled) = SessionEvent.cancelled
event_of (err RuntimeError.wrong_mode) = SessionEvent.denied
event_of (err _) = SessionEvent.unsupported

unfoldable pub audit_of : {E : Type 0} → Result (RuntimeError E) WasiOutput → AuditOutcome
audit_of (ok output) = AuditOutcome.completed output.exit_code
audit_of (err RuntimeError.cancelled) = AuditOutcome.cancelled
audit_of (err RuntimeError.wrong_mode) = AuditOutcome.denied
audit_of (err _) = AuditOutcome.failed

-- The message with which a run ends.
unfoldable pub final_message :
    {E : Type 0} → JobSink → Result (RuntimeError E) WasiOutput → Message E
unfolding outcome_of event_of
final_message (JobSink.outcome channel) result = Message.outcome (outcome_of result)
final_message (JobSink.events channel) result = Message.event (event_of result)

module _ {C E : Type 0} where
  -- The end of `process_job` after `execute`: the audit entry, then the released handle.
  unfoldable pub complete : Job C → ApprovalDecision → AuditOutcome → Broker C E → Broker C E
  complete job decision ended s =
      release job.request.id (record_entry (entry_of job.request.id job decision ended) s)

  -- `execute` where the cancel flag is set before the guest starts.
  unfoldable pub start_cancelled : Job C → ApprovalDecision → Broker C E → Broker C E
  unfolding complete
  start_cancelled job decision s =
      complete job decision AuditOutcome.cancelled (send_terminal job.sink Terminal.cancelled s)

  -- `execute` where the session refuses to start.
  unfoldable pub start_refused : Job C → ApprovalDecision → Broker C E → Broker C E
  unfolding complete
  start_refused job decision s =
      complete job decision AuditOutcome.denied (
        send_terminal job.sink (Terminal.denied_with (invalid_transition "session cannot start")) s)

  -- A streaming sink is told that the guest starts.
  unfoldable pub announce_start : JobSink → Broker C E → Broker C E
  announce_start (JobSink.outcome channel) s = s
  announce_start (JobSink.events channel) s =
      (send channel (Message.event SessionEvent.started) s).0

  -- `execute` up to the call into the runtime, once the session has answered to `Started`.
  unfoldable pub start_accepted :
      Job C → Cancel.CancelHandle → ApprovalDecision → Accepted → Broker C E → Broker C E
  unfolding start_refused announce_start
  start_accepted job cancel decision (session, err e) s = start_refused job decision s
  start_accepted job cancel decision (session, ok _) s = record (announce_start job.sink s) {
    active =
        some
          (record { job = record job { session = session }; cancel = cancel; decision = decision });
  }

  unfoldable pub start_execution :
      Job C → Cancel.CancelHandle → ApprovalDecision → Broker C E → Broker C E
  unfolding start_cancelled start_accepted
  start_execution job cancel decision s =
      if Cancel.is_cancelled cancel s.flags
      then start_cancelled job decision s
      else start_accepted job cancel decision (Session.accept job.session SessionEvent.started) s

  -- Whether anybody hears that a session is parked.
  unfoldable pub notify_parked : JobSink → ApprovalReason → Broker C E → Broker C E × Bool
  notify_parked (JobSink.outcome channel) reason s =
      send channel (Message.outcome (BrokerOutcome.pending_approval reason)) s
  notify_parked (JobSink.events channel) reason s =
      send channel (Message.event (SessionEvent.pending_approval reason)) s

  -- The job is entered into the parked ones, with its deadline, at a time.
  unfoldable pub enter_parked : Job C → ApprovalReason → ℕ → Broker C E → Broker C E
  enter_parked job reason now s =
      let id = job.request.id in
      let asked = (Session.accept job.session (SessionEvent.pending_approval reason)).0 in
      let parked : PendingJob C = record {
        job = record job { session = asked };
        deadline = now + s.approval_timeout;
      } in
      record s { pending = HashMap.insert id parked s.pending }

  -- Then its receiver is asked, and if nobody hears it, the session is dropped.
  unfoldable pub ask_parked : ℕ → JobSink → ApprovalReason → Broker C E → Broker C E
  unfolding notify_parked
  ask_parked id sink reason s =
      let (notified, heard) = notify_parked sink reason s in
      if heard
      then notified
      else release id (record notified { pending = HashMap.remove id notified.pending })

  -- The arm of a request that a human must approve, run through without another thread in between. The
  -- source drops the lock between the two halves; Broker/Locks lets other threads act there.
  unfoldable pub park : Job C → ApprovalReason → ℕ → Broker C E → Broker C E
  unfolding enter_parked ask_parked
  park job reason now s = ask_parked job.request.id job.sink reason (enter_parked job reason now s)

  -- The arm of a job that has no handle any more.
  unfoldable pub orphaned : Job C → Broker C E → Broker C E
  orphaned job s = release job.request.id (
      send_terminal job.sink
        (Terminal.denied_with (invalid_transition "session handle disappeared before start")) s)

  -- The `match` on the risk of the request. `Approved` is literally what the first arm records.
  unfoldable pub dispatch_risk : Risk → Job C → Cancel.CancelHandle → ℕ → Broker C E → Broker C E
  unfolding start_execution park
  dispatch_risk Risk.auto_approve job cancel now s = start_execution job cancel job.admission s
  dispatch_risk (Risk.requires_approval reason) job cancel now s =
      if is_approved job.admission
      then start_execution job cancel ApprovalDecision.approved s
      else park job reason now s

  -- `process_job` up to the call into the runtime, at a time.
  unfoldable pub begin_job : ℕ → Job C → Broker C E → Broker C E
  unfolding dispatch_risk orphaned
  begin_job now job s = elim (HashMap.get job.request.id s.handles) [
    | none ↦ orphaned job s
    | some cancel ↦ dispatch_risk (classify_risk job.request) job cancel now s
  ]

  -- The head of the queue, for a worker that runs no job.
  unfoldable pub take_from : ℕ → Option (Active C) → List (Job C) → Broker C E → Broker C E
  unfolding begin_job
  take_from now none (job ∷ rest) s = begin_job now job (record s { queue = rest })
  take_from now none [] s = s
  take_from now (some a) jobs s = s

  -- `worker_loop` takes the next job when no other is in the runtime.
  unfoldable pub take_job : ℕ → Broker C E → Broker C E
  unfolding take_from
  take_job now s = take_from now s.active s.queue s

  unfoldable pub stream_to : Option (Active C) → Stream → List ℕ → Broker C E → Broker C E
  stream_to none stream bytes s = s
  stream_to (some a) stream bytes s = elim a.job.sink [
    | JobSink.outcome _ ↦ s
    | JobSink.events channel ↦ (send channel (Message.event (SessionEvent.output stream bytes)) s).0
  ]

  -- A chunk that `run_wasi_events` sends while the runtime runs a streaming job.
  unfoldable pub stream_output : Stream → List ℕ → Broker C E → Broker C E
  unfolding stream_to
  stream_output stream bytes s = stream_to s.active stream bytes s

  unfoldable pub finish_active :
      Result (RuntimeError E) WasiOutput → Option (Active C) → Broker C E → Broker C E
  unfolding complete
  finish_active result none s = s
  finish_active result (some a) s =
      complete a.job a.decision (audit_of result)
        (send (sink_channel a.job.sink) (final_message a.job.sink result)
          (record s { active = none })).0

  -- The rest of `process_job`, when the runtime has returned. The job is gone after it, and with it
  -- its session, which is told of the end last.
  unfoldable pub finish_job : Result (RuntimeError E) WasiOutput → Broker C E → Broker C E
  unfolding finish_active
  finish_job result s = finish_active result s.active s

  unfoldable pub panic_active : Option (Active C) → Broker C E → Broker C E
  unfolding complete
  panic_active none s = s
  panic_active (some a) s = complete a.job a.job.admission AuditOutcome.failed (
      send_terminal a.job.sink
        (Terminal.denied_with (invalid_transition "worker panic while executing session"))
        (record s { active = none }))

  -- The runtime panics, and `process_job_guarded` reports it.
  unfoldable pub panic_job : Broker C E → Broker C E
  unfolding panic_active
  panic_job s = panic_active s.active s
