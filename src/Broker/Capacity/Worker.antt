-- ===== src/Broker/Capacity/Worker.antt =====
-- The sessions and their handles in the worker of crates/wasi-runtime/src/broker.rs.
use ferrous_runtime.Prelude.{
  ◌≡◌, ◌==◌, ◌∷◌, [], ℕ, List, Option, none, some, arith, Option-cases, inl, inr, ap, ok, err,
  Result, if◌then◌else◌,
}
use ferrous_runtime.HashMap
use ferrous_runtime.Command.Request.{ApprovalReason, invalid_transition}
use ferrous_runtime.Command.Session
use ferrous_runtime.Command.Session.{SessionEvent, Stream, Accepted}
use ferrous_runtime.Policy.{Risk, classify_risk}
use ferrous_runtime.Runtime.Store.{RuntimeError, WasiOutput}
use ferrous_runtime.Broker.State.{
  Broker, Job, JobSink, Active, Message, Terminal, ApprovalDecision, BrokerOutcome, send,
  sink_channel, release, record_entry, AuditOutcome,
}
use ferrous_runtime.Broker.Worker.{
  begin_job, orphaned, dispatch_risk, start_execution, start_cancelled, start_accepted,
  start_refused, complete, announce_start, park, enter_parked, ask_parked, notify_parked, take_from,
  stream_to, finish_active, panic_active, final_message, audit_of,
}
use ferrous_runtime.Broker.Accounted.{queue_ids, keys}
use ferrous_runtime.Broker.Tally.{one_if}
use ferrous_runtime.Broker.Capacity.{
  present, Same, Placed, keys-remove, send-Same, send_terminal-Same, ended-Placed, runs_id,
}

module _ {C E : Type 0} (i : ℕ) where
  complete-Placed :
      (job : Job C) (d : ApprovalDecision) (o : AuditOutcome) (s t : Broker C E)
      → Same i s t
      → Placed i (one_if (job.request.id == i)) s (complete job d o t)
  unfolding complete record_entry present release
  complete-Placed job d o s t same = ended-Placed i job.request.id s t same

  notify_parked-Same :
      (sink : JobSink) (reason : ApprovalReason) (s : Broker C E)
      → Same i s (notify_parked sink reason s).0
  unfolding notify_parked
  notify_parked-Same (JobSink.outcome d) reason s =
      send-Same i d (Message.outcome (BrokerOutcome.pending_approval reason)) s
  notify_parked-Same (JobSink.events d) reason s =
      send-Same i d (Message.event (SessionEvent.pending_approval reason)) s

  notify_parked-keys :
      (sink : JobSink) (reason : ApprovalReason) (s : Broker C E)
      → keys i (notify_parked sink reason s).0.pending ≡ keys i s.pending
  unfolding notify_parked send
  notify_parked-keys (JobSink.outcome d) reason s = ground arith
  notify_parked-keys (JobSink.events d) reason s = ground arith

  -- The announced session is entered into the runtime.
  announced-Placed :
      (sink : JobSink) (a : Active C) (s : Broker C E)
      → s.active ≡ none
      → Placed i
          (one_if (a.job.request.id == i))
          s
          (record (announce_start sink s) { active = some a })
  unfolding announce_start send present
  announced-Placed (JobSink.outcome d) a s idle = ground (arith, ap (runs_id i) idle)
  announced-Placed (JobSink.events d) a s idle = ground (arith, ap (runs_id i) idle)

  module _ (job : Job C) (s : Broker C E) (idle : s.active ≡ none) where
    start_cancelled-Placed :
        (d : ApprovalDecision) → Placed i (one_if (job.request.id == i)) s (start_cancelled job d s)
    unfolding start_cancelled
    start_cancelled-Placed d =
        complete-Placed job d AuditOutcome.cancelled s _
          (send_terminal-Same i job.sink Terminal.cancelled s)

    start_accepted-Placed :
        (handle : ℕ) (d : ApprovalDecision) (a : Accepted)
        → Placed i (one_if (job.request.id == i)) s (start_accepted job handle d a s)
    unfolding start_accepted start_refused
    start_accepted-Placed handle d (session, err e) =
        complete-Placed job d AuditOutcome.denied s _ (
          send_terminal-Same i job.sink
            (Terminal.denied_with (invalid_transition "session cannot start")) s)
    start_accepted-Placed handle d (session, ok _) =
        announced-Placed job.sink
          (record { job = record job { session = session }; cancel = handle; decision = d }) s idle

    start_execution-Placed :
        (handle : ℕ) (d : ApprovalDecision)
        → Placed i (one_if (job.request.id == i)) s (start_execution job handle d s)
    unfolding start_execution
    start_execution-Placed handle d = ground (
      arith,
      start_cancelled-Placed d,
      start_accepted-Placed handle d (Session.accept job.session SessionEvent.started),
    )

    orphaned-Placed : Placed i (one_if (job.request.id == i)) s (orphaned job s)
    unfolding orphaned
    orphaned-Placed = ended-Placed i job.request.id s _ (
        send_terminal-Same i job.sink
          (Terminal.denied_with (invalid_transition "session handle disappeared before start")) s)

    entered-Placed :
        (reason : ApprovalReason) (now : ℕ)
        → Placed i (one_if (job.request.id == i)) s (enter_parked job reason now s)
    unfolding enter_parked present keys HashMap.insert
    entered-Placed reason now = ground (arith, keys-remove i job.request.id s.pending)

    entered-keys :
        (reason : ApprovalReason) (now : ℕ)
        → keys i (enter_parked job reason now s).pending
          ≡ (if job.request.id == i then 1 else keys i s.pending)
    unfolding enter_parked keys HashMap.insert
    entered-keys reason now = ground (arith, keys-remove i job.request.id s.pending)

    park-Placed :
        (reason : ApprovalReason) (now : ℕ)
        → Placed i (one_if (job.request.id == i)) s (park job reason now s)
    unfolding park ask_parked release present
    park-Placed reason now =
        let entered = enter_parked job reason now s in
        let told = (notify_parked job.sink reason entered).0 in
        ground (
          arith,
          entered-Placed reason now,
          entered-keys reason now,
          notify_parked-keys job.sink reason entered,
          notify_parked-Same job.sink reason entered,
          keys-remove i job.request.id told.pending,
          keys-remove i job.request.id told.handles,
        )

    dispatch_risk-Placed :
        (risk : Risk) (handle now : ℕ)
        → Placed i (one_if (job.request.id == i)) s (dispatch_risk risk job handle now s)
    unfolding dispatch_risk
    dispatch_risk-Placed Risk.auto_approve handle now = start_execution-Placed handle job.admission
    dispatch_risk-Placed (Risk.requires_approval reason) handle now =
        ground
          (arith, start_execution-Placed handle ApprovalDecision.approved, park-Placed reason now)

    begin_job-Placed : (now : ℕ) → Placed i (one_if (job.request.id == i)) s (begin_job now job s)
    unfolding begin_job
    begin_job-Placed now = elim (Option-cases (HashMap.get job.request.id s.handles)) [
      | inl e ↦ rw (e, begin_job) orphaned-Placed
      | inr (handle, e) ↦
          rw (e, begin_job) (dispatch_risk-Placed (classify_risk job.request) handle now)
    ]

  pub take_from-Placed :
      (now : ℕ) (o : Option (Active C)) (jobs : List (Job C)) (s : Broker C E)
      → s.active ≡ o
      → s.queue ≡ jobs
      → Placed i 0 s (take_from now o jobs s)
  unfolding take_from present queue_ids
  take_from-Placed now none (job ∷ rest) s idle e =
      let (a, b) = begin_job-Placed job (record s { queue = rest }) idle now in
      ground (arith, a, b, ap (queue_ids i) e)
  take_from-Placed now none [] s idle e = (omega arith, λ a b. omega arith)
  take_from-Placed now (some a) jobs s idle e = (omega arith, λ a b. omega arith)

  pub stream_to-Placed :
      (o : Option (Active C)) (stream : Stream) (bytes : List ℕ) (s : Broker C E)
      → Placed i 0 s (stream_to o stream bytes s)
  unfolding stream_to send present
  stream_to-Placed none stream bytes s = (omega arith, λ a b. omega arith)
  stream_to-Placed (some a) stream bytes s = ground arith

  -- The job in the runtime is taken out of it.
  left-Placed :
      (a : Active C) (s s' : Broker C E)
      → s.active ≡ some a
      → Placed i (one_if (a.job.request.id == i)) (record s { active = none }) s'
      → Placed i 0 s s'
  unfolding present
  left-Placed a s s' busy (p, h) = ground (arith, ap (runs_id i) busy)

  pub finish_active-Placed :
      (o : Option (Active C)) (r : Result (RuntimeError E) WasiOutput) (s : Broker C E)
      → s.active ≡ o
      → Placed i 0 s (finish_active r o s)
  unfolding finish_active
  finish_active-Placed none r s busy = (omega arith, λ a b. omega arith)
  finish_active-Placed (some a) r s busy = left-Placed a s _ busy (
      complete-Placed a.job a.decision (audit_of r) (record s { active = none }) _
        (send-Same i (sink_channel a.job.sink) (final_message a.job.sink r)
          (record s { active = none })))

  pub panic_active-Placed :
      (o : Option (Active C)) (s : Broker C E) → s.active ≡ o → Placed i 0 s (panic_active o s)
  unfolding panic_active
  panic_active-Placed none s busy = (omega arith, λ a b. omega arith)
  panic_active-Placed (some a) s busy = left-Placed a s _ busy (
      complete-Placed a.job a.job.admission AuditOutcome.failed (record s { active = none }) _
        (send_terminal-Same i a.job.sink
          (Terminal.denied_with (invalid_transition "worker panic while executing session"))
          (record s { active = none })))
