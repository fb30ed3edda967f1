-- ===== src/Broker/Stopped/Worker.antt =====
-- A stopped handle in the worker of crates/wasi-runtime/src/broker.rs.
use ferrous_runtime.Prelude.{
  ◌≡◌, ◌==◌, ℕ, Option, List, true, false, ◌∷◌, some, Result, err, arith, Option-cases, none, ◌∙◌,
  inl, ok, inr, [], subst, Bool-cases, refl,
}
use ferrous_runtime.HashMap
use ferrous_runtime.Cancel
use ferrous_runtime.Command.Session
use ferrous_runtime.Broker.State.{
  Terminal, Job, JobSink, Broker, Active, release, Message, record_entry, ApprovalDecision,
  BrokerOutcome, sink_channel, send,
}
use ferrous_runtime.Broker.Worker.{
  announce_start, notify_parked, take_from, stream_to, finish_active, panic_active, complete,
  start_cancelled, start_refused, orphaned, start_accepted, start_execution, park, enter_parked,
  dispatch_risk, begin_job, final_message,
}
use ferrous_runtime.Broker.Stopped.{is_stopped, KeepsStopped}
use ferrous_runtime.Broker.Stopped.Calls.{send-is_stopped, send_terminal-is_stopped}
use ferrous_runtime.Command.Request.{ApprovalReason, invalid_transition}
use ferrous_runtime.Policy.{classify_risk, Risk}
use ferrous_runtime.Command.Session.{Stream, SessionEvent, Accepted}
use ferrous_runtime.Runtime.Store.{RuntimeError, WasiOutput}

-- A handle whose flag is not set is not one whose flag is set.
other_handle :
    (handle cancel : Cancel.CancelHandle) (flags : Cancel.Flags)
    → Cancel.is_cancelled handle flags ≡ true
    → Cancel.is_cancelled cancel flags ≡ false
    → (cancel == handle) ≡ false
other_handle handle cancel flags h k = elim (Bool-cases (cancel == handle)) [
  | inr e ↦ e
  | inl e ↦
      let same : cancel ≡ handle = ground arith in
      let unset : Cancel.is_cancelled handle flags ≡ false =
        subst (λ x. Cancel.is_cancelled x flags ≡ false) same k in
      cc
]

module _ {C E : Type 0} (handle : Cancel.CancelHandle) where
  announce_start-is_stopped :
      (sink : JobSink) (s : Broker C E)
      → is_stopped handle (announce_start sink s) ≡ is_stopped handle s
  unfolding announce_start
  announce_start-is_stopped (JobSink.outcome d) s = refl
  announce_start-is_stopped (JobSink.events d) s =
      send-is_stopped handle d (Message.event SessionEvent.started) s

  notify_parked-is_stopped :
      (sink : JobSink) (reason : ApprovalReason) (s : Broker C E)
      → is_stopped handle (notify_parked sink reason s).0 ≡ is_stopped handle s
  unfolding notify_parked
  notify_parked-is_stopped (JobSink.outcome d) reason s =
      send-is_stopped handle d (Message.outcome (BrokerOutcome.pending_approval reason)) s
  notify_parked-is_stopped (JobSink.events d) reason s =
      send-is_stopped handle d (Message.event (SessionEvent.pending_approval reason)) s

  module _ (job : Job C) (s : Broker C E) where
    start_cancelled-is_stopped :
        (d : ApprovalDecision) → is_stopped handle (start_cancelled job d s) ≡ is_stopped handle s
    unfolding start_cancelled complete release record_entry is_stopped
    start_cancelled-is_stopped d = send_terminal-is_stopped handle job.sink Terminal.cancelled s

    start_refused-is_stopped :
        (d : ApprovalDecision) → is_stopped handle (start_refused job d s) ≡ is_stopped handle s
    unfolding start_refused complete release record_entry is_stopped
    start_refused-is_stopped d =
        send_terminal-is_stopped handle job.sink
          (Terminal.denied_with (invalid_transition "session cannot start")) s

    orphaned-is_stopped : is_stopped handle (orphaned job s) ≡ is_stopped handle s
    unfolding orphaned release is_stopped
    orphaned-is_stopped =
        send_terminal-is_stopped handle job.sink
          (Terminal.denied_with (invalid_transition "session handle disappeared before start")) s

    start_accepted-KeepsStopped :
        (cancel : ℕ) (d : ApprovalDecision) (a : Accepted)
        → (cancel == handle) ≡ false
        → KeepsStopped handle s (start_accepted job cancel d a s)
    unfolding start_accepted is_stopped
    start_accepted-KeepsStopped cancel d (session, err e) m k = start_refused-is_stopped d ∙ k
    start_accepted-KeepsStopped cancel d (session, ok _) m k =
        ground (arith, announce_start-is_stopped job.sink s)

    -- The flag is read just before the guest starts.
    start_execution-KeepsStopped :
        (cancel : ℕ) (d : ApprovalDecision) → KeepsStopped handle s (start_execution job cancel d s)
    unfolding start_execution is_stopped
    start_execution-KeepsStopped cancel d k = ground (
      arith,
      start_cancelled-is_stopped d,
      other_handle handle cancel s.flags,
      start_accepted-KeepsStopped cancel d (Session.accept job.session SessionEvent.started),
    )

    park-is_stopped :
        (reason : ApprovalReason) (now : ℕ)
        → is_stopped handle (park job reason now s) ≡ is_stopped handle s
    unfolding park release is_stopped
    park-is_stopped reason now =
        ground (arith, notify_parked-is_stopped job.sink reason (enter_parked job reason now s))

    dispatch_risk-KeepsStopped :
        (risk : Risk) (cancel now : ℕ) → KeepsStopped handle s (dispatch_risk risk job cancel now s)
    unfolding dispatch_risk
    dispatch_risk-KeepsStopped Risk.auto_approve cancel now k =
        start_execution-KeepsStopped cancel job.admission k
    dispatch_risk-KeepsStopped (Risk.requires_approval reason) cancel now k = ground (
      arith,
      start_execution-KeepsStopped cancel ApprovalDecision.approved,
      park-is_stopped reason now,
    )

    begin_job-KeepsStopped : (now : ℕ) → KeepsStopped handle s (begin_job now job s)
    unfolding begin_job
    begin_job-KeepsStopped now k = elim (Option-cases (HashMap.get job.request.id s.handles)) [
      | inl e ↦ rw (e, begin_job) (orphaned-is_stopped ∙ k)
      | inr (cancel, e) ↦
          rw (e, begin_job) (dispatch_risk-KeepsStopped (classify_risk job.request) cancel now k)
    ]

  pub take_from-KeepsStopped :
      (now : ℕ) (o : Option (Active C)) (jobs : List (Job C)) (s : Broker C E)
      → KeepsStopped handle s (take_from now o jobs s)
  unfolding take_from is_stopped
  take_from-KeepsStopped now none (job ∷ rest) s k =
      begin_job-KeepsStopped job (record s { queue = rest }) now k
  take_from-KeepsStopped now none [] s k = k
  take_from-KeepsStopped now (some a) jobs s k = k

  pub stream_to-KeepsStopped :
      (o : Option (Active C)) (stream : Stream) (bytes : List ℕ) (s : Broker C E)
      → KeepsStopped handle s (stream_to o stream bytes s)
  unfolding stream_to send is_stopped
  stream_to-KeepsStopped none stream bytes s k = k
  stream_to-KeepsStopped (some a) stream bytes s k = ground arith

  pub finish_active-KeepsStopped :
      (r : Result (RuntimeError E) WasiOutput) (o : Option (Active C)) (s : Broker C E)
      → KeepsStopped handle s (finish_active r o s)
  unfolding finish_active complete release record_entry is_stopped
  finish_active-KeepsStopped r none s k = k
  finish_active-KeepsStopped r (some a) s k = ground (
    arith,
    send-is_stopped handle (sink_channel a.job.sink) (final_message a.job.sink r)
        (record s { active = none }),
  )

  pub panic_active-KeepsStopped :
      (o : Option (Active C)) (s : Broker C E) → KeepsStopped handle s (panic_active o s)
  unfolding panic_active complete release record_entry is_stopped
  panic_active-KeepsStopped none s k = k
  panic_active-KeepsStopped (some a) s k = ground (
    arith,
    send_terminal-is_stopped handle a.job.sink
        (Terminal.denied_with (invalid_transition "worker panic while executing session"))
        (record s { active = none }),
  )
