-- ===== src/Broker/Approval/Worker.antt =====
-- The approval gate in the worker of crates/wasi-runtime/src/broker.rs.
use ferrous_runtime.Prelude.{
  ◌≡◌, ℕ, Bool, Option, List, ◌||◌, true, ◌∷◌, some, Result, err, arith, Option-cases, all, none,
  refl, ◌∙◌, ◌+◌, inl, subst, ok, inr, [],
}
use ferrous_runtime.HashMap
use ferrous_runtime.Command.Session
use ferrous_runtime.Broker.State.{
  Terminal, Job, JobSink, Broker, Active, release, Message, record_entry, ApprovalDecision,
  BrokerOutcome, PendingJob, sink_channel, send,
}
use ferrous_runtime.Broker.Calls.{cancel}
use ferrous_runtime.Broker.Worker.{
  announce_start, notify_parked, take_from, stream_to, finish_active, panic_active, complete,
  start_cancelled, start_refused, orphaned, start_accepted, start_execution, park, dispatch_risk,
  begin_job, final_message,
}
use ferrous_runtime.Broker.Approval.{is_safe, is_auto, KeepsSafe, job_ok, parked_ok}
use ferrous_runtime.Broker.Approval.Calls.{send-is_safe, send_terminal-is_safe}
use ferrous_runtime.Command.Request.{ApprovalReason, invalid_transition}
use ferrous_runtime.Policy.{classify_risk, Risk}
use ferrous_runtime.Command.Session.{Stream, SessionEvent, Accepted}
use ferrous_runtime.Runtime.Store.{RuntimeError, WasiOutput}

module _ {C E : Type 0} (may : ℕ → Bool) where
  pub announce_start-is_safe :
      (sink : JobSink) (s : Broker C E) → is_safe may (announce_start sink s) ≡ is_safe may s
  unfolding announce_start
  announce_start-is_safe (JobSink.outcome d) s = refl
  announce_start-is_safe (JobSink.events d) s =
      send-is_safe may d (Message.event SessionEvent.started) s

  pub notify_parked-is_safe :
      (sink : JobSink) (reason : ApprovalReason) (s : Broker C E)
      → is_safe may (notify_parked sink reason s).0 ≡ is_safe may s
  unfolding notify_parked
  notify_parked-is_safe (JobSink.outcome d) reason s =
      send-is_safe may d (Message.outcome (BrokerOutcome.pending_approval reason)) s
  notify_parked-is_safe (JobSink.events d) reason s =
      send-is_safe may d (Message.event (SessionEvent.pending_approval reason)) s

  module _ (job : Job C) (s : Broker C E) where
    pub start_cancelled-is_safe :
        (d : ApprovalDecision) → is_safe may (start_cancelled job d s) ≡ is_safe may s
    unfolding start_cancelled complete release record_entry is_safe
    start_cancelled-is_safe d = send_terminal-is_safe may job.sink Terminal.cancelled s

    pub start_refused-is_safe :
        (d : ApprovalDecision) → is_safe may (start_refused job d s) ≡ is_safe may s
    unfolding start_refused complete release record_entry is_safe
    start_refused-is_safe d =
        send_terminal-is_safe may job.sink
          (Terminal.denied_with (invalid_transition "session cannot start")) s

    pub orphaned-is_safe : is_safe may (orphaned job s) ≡ is_safe may s
    unfolding orphaned release is_safe
    orphaned-is_safe =
        send_terminal-is_safe may job.sink
          (Terminal.denied_with (invalid_transition "session handle disappeared before start")) s

    pub start_accepted-KeepsSafe :
        (cancel : ℕ) (d : ApprovalDecision) (a : Accepted)
        → (is_auto (classify_risk job.request) || may job.request.id) ≡ true
        → KeepsSafe may s (start_accepted job cancel d a s)
    unfolding start_accepted is_safe
    start_accepted-KeepsSafe cancel d (session, err e) m k = start_refused-is_safe d ∙ k
    start_accepted-KeepsSafe cancel d (session, ok _) m k =
        ground (arith, announce_start-is_safe job.sink s)

    pub start_execution-KeepsSafe :
        (cancel : ℕ) (d : ApprovalDecision)
        → (is_auto (classify_risk job.request) || may job.request.id) ≡ true
        → KeepsSafe may s (start_execution job cancel d s)
    unfolding start_execution
    start_execution-KeepsSafe cancel d m k = ground (
      arith,
      start_cancelled-is_safe d,
      start_accepted-KeepsSafe cancel d (Session.accept job.session SessionEvent.started) m k,
    )

    pub park-KeepsSafe :
        (reason : ApprovalReason) (now : ℕ) → KeepsSafe may s (park job reason now s)
    unfolding park release is_safe HashMap.insert
    park-KeepsSafe reason now k =
        let asked = (Session.accept job.session (SessionEvent.pending_approval reason)).0 in
        let parked_job : PendingJob C = record {
          job = record job { session = asked };
          deadline = now + s.approval_timeout;
        } in
        let s' = record s { pending = HashMap.insert job.request.id parked_job s.pending } in
        ground (
          arith,
          notify_parked-is_safe job.sink reason s',
          HashMap.all-remove parked_ok job.request.id s.pending,
          HashMap.all-remove parked_ok job.request.id (notify_parked job.sink reason s').0.pending,
        )

    pub dispatch_risk-KeepsSafe :
        (risk : Risk) (cancel now : ℕ)
        → classify_risk job.request ≡ risk
        → job_ok may job ≡ true
        → KeepsSafe may s (dispatch_risk risk job cancel now s)
    unfolding dispatch_risk
    dispatch_risk-KeepsSafe Risk.auto_approve cancel now e h k =
        start_execution-KeepsSafe cancel job.admission (ground arith) k
    dispatch_risk-KeepsSafe (Risk.requires_approval reason) cancel now e h k = ground (
      arith,
      start_execution-KeepsSafe cancel ApprovalDecision.approved,
      park-KeepsSafe reason now,
    )

    pub begin_job-KeepsSafe :
        (now : ℕ) → job_ok may job ≡ true → KeepsSafe may s (begin_job now job s)
    unfolding begin_job
    begin_job-KeepsSafe now h k = elim (Option-cases (HashMap.get job.request.id s.handles)) [
      | inl e ↦ rw (e, begin_job) (orphaned-is_safe ∙ k)
      | inr (cancel, e) ↦
          rw (e, begin_job)
            (dispatch_risk-KeepsSafe (classify_risk job.request) cancel now refl h k)
    ]

  pub take_from-KeepsSafe :
      (now : ℕ) (o : Option (Active C)) (jobs : List (Job C)) (s : Broker C E)
      → s.queue ≡ jobs
      → KeepsSafe may s (take_from now o jobs s)
  unfolding take_from is_safe
  take_from-KeepsSafe now none (job ∷ rest) s e k =
      let all_ok : all (job_ok may) (job ∷ rest) ≡ true =
        subst (λ q. all (job_ok may) q ≡ true) e (ground arith) in
      begin_job-KeepsSafe job (record s { queue = rest }) now (ground arith) (ground arith)
  take_from-KeepsSafe now none [] s e k = k
  take_from-KeepsSafe now (some a) jobs s e k = k

  pub stream_to-KeepsSafe :
      (o : Option (Active C)) (stream : Stream) (bytes : List ℕ) (s : Broker C E)
      → KeepsSafe may s (stream_to o stream bytes s)
  unfolding stream_to send is_safe
  stream_to-KeepsSafe none stream bytes s k = k
  stream_to-KeepsSafe (some a) stream bytes s k = ground arith

  pub finish_active-KeepsSafe :
      (r : Result (RuntimeError E) WasiOutput) (o : Option (Active C)) (s : Broker C E)
      → KeepsSafe may s (finish_active r o s)
  unfolding finish_active complete release record_entry is_safe
  finish_active-KeepsSafe r none s k = k
  finish_active-KeepsSafe r (some a) s k = ground (
    arith,
    send-is_safe may (sink_channel a.job.sink) (final_message a.job.sink r)
        (record s { active = none }),
  )

  pub panic_active-KeepsSafe :
      (o : Option (Active C)) (s : Broker C E) → KeepsSafe may s (panic_active o s)
  unfolding panic_active complete release record_entry is_safe
  panic_active-KeepsSafe none s k = k
  panic_active-KeepsSafe (some a) s k = ground (
    arith,
    send_terminal-is_safe may a.job.sink
        (Terminal.denied_with (invalid_transition "worker panic while executing session"))
        (record s { active = none }),
  )
