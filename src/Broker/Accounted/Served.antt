-- ===== src/Broker/Accounted/Served.antt =====
-- The ids of the waiting sessions in the worker of crates/wasi-runtime/src/broker.rs.
use ferrous_runtime.Prelude.{
  ◌≡◌, ◌==◌, ◌≤◌, ◌+◌, ◌∷◌, [], ℕ, List, Option, none, some, arith, refl, Option-cases, inl, inr,
  ap, ok, err, Result,
}
use ferrous_runtime.HashMap
use ferrous_runtime.Command.Request.{ApprovalReason, invalid_transition}
use ferrous_runtime.Command.Session
use ferrous_runtime.Command.Session.{SessionEvent, Stream, Accepted}
use ferrous_runtime.Policy.{Risk, classify_risk}
use ferrous_runtime.Runtime.Store.{RuntimeError, WasiOutput}
use ferrous_runtime.Broker.State.{
  Broker, Job, PendingJob, JobSink, Active, Message, Terminal, ApprovalDecision, BrokerOutcome,
  send, sink_channel, release, record_entry,
}
use ferrous_runtime.Broker.Worker.{
  begin_job, orphaned, dispatch_risk, start_execution, start_cancelled, start_accepted,
  start_refused, complete, announce_start, park, notify_parked, take_from, stream_to, finish_active,
  panic_active, final_message,
}
use ferrous_runtime.Broker.Accounted.{waiting, queue_ids, keys}
use ferrous_runtime.Broker.Accounted.Ids.{send-waiting, send_terminal-waiting, keys-remove-le}
use ferrous_runtime.Broker.Tally.{one_if}

module _ {C E : Type 0} (i : ℕ) where
  announce_start-waiting :
      (sink : JobSink) (s : Broker C E) → waiting i (announce_start sink s) ≡ waiting i s
  unfolding announce_start
  announce_start-waiting (JobSink.outcome d) s = refl
  announce_start-waiting (JobSink.events d) s =
      send-waiting i d (Message.event SessionEvent.started) s

  notify_parked-waiting :
      (sink : JobSink) (reason : ApprovalReason) (s : Broker C E)
      → waiting i (notify_parked sink reason s).0 ≡ waiting i s
  unfolding notify_parked
  notify_parked-waiting (JobSink.outcome d) reason s =
      send-waiting i d (Message.outcome (BrokerOutcome.pending_approval reason)) s
  notify_parked-waiting (JobSink.events d) reason s =
      send-waiting i d (Message.event (SessionEvent.pending_approval reason)) s

  module _ (job : Job C) (s : Broker C E) where
    start_accepted-waiting :
        (handle : ℕ) (d : ApprovalDecision) (a : Accepted)
        → waiting i (start_accepted job handle d a s) ≡ waiting i s
    unfolding start_accepted start_refused complete release record_entry waiting
    start_accepted-waiting handle d (session, err e) =
        send_terminal-waiting i job.sink
          (Terminal.denied_with (invalid_transition "session cannot start")) s
    start_accepted-waiting handle d (session, ok _) = announce_start-waiting job.sink s

    start_cancelled-waiting :
        (d : ApprovalDecision) → waiting i (start_cancelled job d s) ≡ waiting i s
    unfolding start_cancelled complete release record_entry waiting
    start_cancelled-waiting d = send_terminal-waiting i job.sink Terminal.cancelled s

    start_execution-waiting :
        (handle : ℕ) (d : ApprovalDecision)
        → waiting i (start_execution job handle d s) ≡ waiting i s
    unfolding start_execution
    start_execution-waiting handle d = ground (
      arith,
      start_cancelled-waiting d,
      start_accepted-waiting handle d (Session.accept job.session SessionEvent.started),
    )

    orphaned-waiting : waiting i (orphaned job s) ≡ waiting i s
    unfolding orphaned release waiting
    orphaned-waiting =
        send_terminal-waiting i job.sink
          (Terminal.denied_with (invalid_transition "session handle disappeared before start")) s

    park-waiting :
        (reason : ApprovalReason) (now : ℕ)
        → waiting i (park job reason now s) ≤ waiting i s + one_if (job.request.id == i)
    unfolding park release waiting keys HashMap.insert
    park-waiting reason now =
        let asked = (Session.accept job.session (SessionEvent.pending_approval reason)).0 in
        let parked_job : PendingJob C = record {
          job = record job { session = asked };
          deadline = now + s.approval_timeout;
        } in
        let u = record s { pending = HashMap.insert job.request.id parked_job s.pending } in
        let told = (notify_parked job.sink reason u).0 in
        ground (
          arith,
          notify_parked-waiting job.sink reason u,
          keys-remove-le i job.request.id s.pending,
          keys-remove-le i job.request.id told.pending,
        )

    dispatch_risk-waiting :
        (risk : Risk) (handle now : ℕ)
        → waiting i (dispatch_risk risk job handle now s)
          ≤ waiting i s + one_if (job.request.id == i)
    unfolding dispatch_risk
    dispatch_risk-waiting Risk.auto_approve handle now =
        omega (arith, start_execution-waiting handle job.admission)
    dispatch_risk-waiting (Risk.requires_approval reason) handle now =
        ground
          (arith, start_execution-waiting handle ApprovalDecision.approved, park-waiting reason now)

    begin_job-waiting :
        (now : ℕ) → waiting i (begin_job now job s) ≤ waiting i s + one_if (job.request.id == i)
    unfolding begin_job
    begin_job-waiting now = elim (Option-cases (HashMap.get job.request.id s.handles)) [
      | inl e ↦ rw (e, begin_job) (omega (arith, orphaned-waiting))
      | inr (handle, e) ↦
          rw (e, begin_job) (dispatch_risk-waiting (classify_risk job.request) handle now)
    ]

  pub take_from-waiting :
      (now : ℕ) (o : Option (Active C)) (jobs : List (Job C)) (s : Broker C E)
      → s.queue ≡ jobs
      → waiting i (take_from now o jobs s) ≤ waiting i s
  unfolding take_from waiting queue_ids
  take_from-waiting now none (job ∷ rest) s e =
      omega (arith, begin_job-waiting job (record s { queue = rest }) now, ap (queue_ids i) e)
  take_from-waiting now none [] s e = omega arith
  take_from-waiting now (some a) jobs s e = omega arith

  pub stream_to-waiting :
      (o : Option (Active C)) (stream : Stream) (bytes : List ℕ) (s : Broker C E)
      → waiting i (stream_to o stream bytes s) ≡ waiting i s
  unfolding stream_to send waiting
  stream_to-waiting none stream bytes s = refl
  stream_to-waiting (some a) stream bytes s = ground arith

  pub finish_active-waiting :
      (o : Option (Active C)) (r : Result (RuntimeError E) WasiOutput) (s : Broker C E)
      → waiting i (finish_active r o s) ≡ waiting i s
  unfolding finish_active complete release record_entry waiting
  finish_active-waiting none r s = refl
  finish_active-waiting (some a) r s =
      send-waiting i (sink_channel a.job.sink) (final_message a.job.sink r)
        (record s { active = none })

  pub panic_active-waiting :
      (o : Option (Active C)) (s : Broker C E) → waiting i (panic_active o s) ≡ waiting i s
  unfolding panic_active complete release record_entry waiting
  panic_active-waiting none s = refl
  panic_active-waiting (some a) s =
      send_terminal-waiting i a.job.sink
        (Terminal.denied_with (invalid_transition "worker panic while executing session"))
        (record s { active = none })
