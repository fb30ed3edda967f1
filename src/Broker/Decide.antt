-- ===== src/Broker/Decide.antt =====
-- What the decisions on a parked session of crates/wasi-runtime/src/broker.rs do, and what a cancelled
-- handle prevents.
use ferrous_runtime.Prelude.{
  ◌≡◌, ℕ, some, none, ok, arith, true, ◌∷◌, ◌==◌, false, refl, List, ap, ◌∙◌, ◌++◌, [], ◌+◌,
  if◌then◌else◌, subst, sym,
}
use ferrous_runtime.HashMap
use ferrous_runtime.Command.Session
use ferrous_runtime.Broker.State.{
  Terminal, Job, release, Broker, ApprovalDecision, record_entry, PendingJob, AuditOutcome,
  send_terminal, send, push_entry, is_connected, entry_of, sink_channel, terminal_message, JobSink,
  Message, BrokerOutcome,
}
use ferrous_runtime.Broker.Calls.{
  cancel, close_parked, approve, deny, approve_job, send_job, has_cancelled_handle,
}
use ferrous_runtime.Broker.Sweeper.{expire}
use ferrous_runtime.Broker.Worker.{
  dispatch_risk, take_job, take_from, begin_job, is_approved, park, notify_parked,
}
use ferrous_runtime.Policy.{Risk, classify_risk}
use ferrous_runtime.Command.Request.{ApprovalReason}
use ferrous_runtime.Command.Session.{SessionEvent, Lifecycle}

-- What the receiver of a session is asked.
abbrev pub question : {E : Type 0} → JobSink → ApprovalReason → Message E
question (JobSink.outcome channel) reason = Message.outcome (BrokerOutcome.pending_approval reason)
question (JobSink.events channel) reason = Message.event (SessionEvent.pending_approval reason)

module _ {C : Type 0} where
  -- The entry of a parked session: the same job, whose session awaits the approval.
  pub record IsEntry (job : Job C) (deadline : ℕ) (p : PendingJob C) : Type 0 where
    pub same_request : p.job.request ≡ job.request
    pub same_component : p.job.compiled ≡ job.compiled
    pub same_sink : p.job.sink ≡ job.sink
    pub not_approved : p.job.admission ≡ job.admission
    pub awaits :
        job.session.lifecycle ≡ Lifecycle.created
        → p.job.session.lifecycle ≡ Lifecycle.waiting_approval
    pub deadline_set : p.deadline ≡ deadline

  asked-IsEntry :
      (job : Job C) (reason : ApprovalReason) (deadline : ℕ)
      → IsEntry job deadline (record {
        job = record job {
          session = (Session.accept job.session (SessionEvent.pending_approval reason)).0;
        };
        deadline = deadline;
      })
  unfolding Session.accept
  asked-IsEntry job reason deadline = record {
    same_request = refl;
    same_component = refl;
    same_sink = refl;
    not_approved = refl;
    awaits = λ e. rw e refl;
    deadline_set = refl;
  }

module _ {C E : Type 0} where
  -- A session that ended without running: it is neither parked nor registered any more, its receiver
  -- has been told if it still listens, one entry was recorded, and nothing was queued or started.
  pub record IsClosed (id : ℕ) (job : Job C) (t : Terminal) (d : ApprovalDecision)
      (o : AuditOutcome) (s s' : Broker C E) : Type 0 where
    pub not_parked : HashMap.get id s'.pending ≡ none
    pub not_registered : HashMap.get id s'.handles ≡ none
    pub recorded : s'.audit ≡ push_entry (entry_of id job d o) s.audit
    pub told :
        is_connected (sink_channel job.sink) s ≡ true
        → s'.sent ≡ (sink_channel job.sink, terminal_message job.sink t) ∷ s.sent
    pub same_queue : s'.queue ≡ s.queue
    pub same_active : s'.active ≡ s.active
    pub others_parked :
        (k : ℕ) → (k == id) ≡ false → HashMap.get k s'.pending ≡ HashMap.get k s.pending
    pub others_registered :
        (k : ℕ) → (k == id) ≡ false → HashMap.get k s'.handles ≡ HashMap.get k s.handles

  close_parked-IsClosed :
      (id : ℕ) (job : Job C) (t : Terminal) (d : ApprovalDecision) (o : AuditOutcome)
      (s : Broker C E)
      → IsClosed id job t d o s
          (close_parked id job t d o (record s { pending = HashMap.remove id s.pending }))
  unfolding close_parked release record_entry send_terminal send is_connected
  close_parked-IsClosed id job t d o s = record {
    not_parked = ground (arith, HashMap.get-remove id id s.pending);
    not_registered = ground (arith, HashMap.get-remove id id s.handles);
    recorded = ground arith;
    told = λ c. ground arith;
    same_queue = ground arith;
    same_active = ground arith;
    others_parked = λ k e. ground (arith, HashMap.get-remove id k s.pending);
    others_registered = λ k e. ground (arith, HashMap.get-remove id k s.handles);
  }

  -- Denying a parked session, cancelling it, and finding its deadline passed each close it: it is
  -- neither parked nor registered any more, its receiver, if connected, is told Denied, Cancelled and
  -- Denied, one audit entry is recorded, which says denied, cancelled and timed out, nothing is queued
  -- or started, and the other sessions stay as they were.
  pub parked-IsClosed :
      (id : ℕ) (s : Broker C E) (p : PendingJob C)
      → HashMap.get id s.pending ≡ some p
      → ((deny id s).1 ≡ ok tt)
        × IsClosed id p.job Terminal.denied ApprovalDecision.denied AuditOutcome.denied s
            (deny id s).0
        × ((cancel id s).1 ≡ ok tt)
        × IsClosed id p.job Terminal.cancelled ApprovalDecision.cancelled AuditOutcome.cancelled s
            (cancel id s).0
        × IsClosed id p.job Terminal.denied ApprovalDecision.timed_out AuditOutcome.denied s
            (expire id s)
  unfolding deny cancel expire
  parked-IsClosed id s p e =
      rw (e, deny, cancel, expire)
        (
          refl,
          close_parked-IsClosed id p.job Terminal.denied ApprovalDecision.denied AuditOutcome.denied
              s,
          refl,
          close_parked-IsClosed id p.job Terminal.cancelled ApprovalDecision.cancelled
              AuditOutcome.cancelled s,
          close_parked-IsClosed id p.job Terminal.denied ApprovalDecision.timed_out
              AuditOutcome.denied s,
        )

  -- Approving a parked session that nobody has cancelled, while the worker lives, puts exactly this
  -- session at the end of the queue, marked as approved. It is no longer parked, all other sessions
  -- stay parked as they were, every handle and every flag stays, the runtime goes on with its job, and
  -- neither a message is sent nor an entry recorded.
  pub approve_queues :
      (id : ℕ) (s : Broker C E) (p : PendingJob C)
      → HashMap.get id s.pending ≡ some p
      → has_cancelled_handle id s ≡ false
      → s.worker_stopped ≡ false
      → let s' = (approve id s).0 in
        ((approve id s).1 ≡ ok tt)
        × (s'.queue ≡ s.queue ++ record p.job { admission = ApprovalDecision.approved } ∷ [])
        × ((k : ℕ) → HashMap.get k s'.pending ≡ (if id == k then none else HashMap.get k s.pending))
        × (s'.handles ≡ s.handles)
        × (s'.flags ≡ s.flags)
        × (s'.active ≡ s.active)
        × (s'.sent ≡ s.sent)
        × (s'.audit ≡ s.audit)
  unfolding approve approve_job send_job has_cancelled_handle
  approve_queues id s p e c w =
      rw (e, approve, c, approve_job, w, send_job)
        (refl, refl, λ k. HashMap.get-remove id k s.pending, refl, refl, refl, refl, refl)

  -- The state after a session has been parked.
  pub record IsParked (job : Job C) (reason : ApprovalReason) (now : ℕ) (rest : List (Job C))
      (s s' : Broker C E) : Type 0 where
    pub same_active : s'.active ≡ s.active
    pub same_handles : s'.handles ≡ s.handles
    pub same_audit : s'.audit ≡ s.audit
    pub rest_waits : s'.queue ≡ rest
    pub is_parked :
        (p : PendingJob C) × (HashMap.get job.request.id s'.pending ≡ some p)
        × IsEntry job (now + s.approval_timeout) p
    pub others_parked :
        (k : ℕ) → (job.request.id == k) ≡ false → HashMap.get k s'.pending ≡ HashMap.get k s.pending
    pub asked : s'.sent ≡ (sink_channel job.sink, question job.sink reason) ∷ s.sent

  notify_parked-asks :
      (sink : JobSink) (reason : ApprovalReason) (s : Broker C E)
      → is_connected (sink_channel sink) s ≡ true
      → notify_parked sink reason s
        ≡ (record s { sent = (sink_channel sink, question sink reason) ∷ s.sent }, true)
  unfolding notify_parked send is_connected
  notify_parked-asks (JobSink.outcome d) reason s c = ground arith
  notify_parked-asks (JobSink.events d) reason s c = ground arith

  park-IsParked :
      (job : Job C) (reason : ApprovalReason) (now : ℕ) (rest : List (Job C)) (s : Broker C E)
      → is_connected (sink_channel job.sink) s ≡ true
      → IsParked job reason now rest s (park job reason now (record s { queue = rest }))
  unfolding park is_connected
  park-IsParked job reason now rest s c =
      let id = job.request.id in
      let entry : PendingJob C = record {
        job = record job {
          session = (Session.accept job.session (SessionEvent.pending_approval reason)).0;
        };
        deadline = now + s.approval_timeout;
      } in
      let u = record s { queue = rest; pending = HashMap.insert id entry s.pending } in
      rw (notify_parked-asks job.sink reason u c, park)
        (record {
          same_active = refl;
          same_handles = refl;
          same_audit = refl;
          rest_waits = refl;
          is_parked = (
            entry,
            ground (arith, HashMap.get-insert id id entry s.pending),
            asked-IsEntry job reason (now + s.approval_timeout),
          );
          others_parked = λ k e. ground (arith, HashMap.get-insert id k entry s.pending);
          asked = refl;
        })

  take_risky :
      (job : Job C) (rest : List (Job C)) (handle now : ℕ) (reason : ApprovalReason)
      (s : Broker C E)
      → HashMap.get job.request.id s.handles ≡ some handle
      → classify_risk job.request ≡ Risk.requires_approval reason
      → is_approved job.admission ≡ false
      → take_from now none (job ∷ rest) s ≡ park job reason now (record s { queue = rest })
  unfolding take_from begin_job dispatch_risk
  take_risky job rest handle now reason s h k n = rw (h, begin_job, k, n) refl

  -- If the worker is free and the session at the head of the queue has a handle, needs approval, was not
  -- approved, and has a receiver that listens, then taking it parks it: it stands under its id with
  -- its deadline, as one that awaits an approval, the other parked sessions stay, its receiver is asked
  -- for the approval with the reason and told nothing else, every handle and the trail stay, the rest
  -- of the queue waits, and nothing enters the runtime.
  pub take_job-IsParked :
      (job : Job C) (rest : List (Job C)) (handle now : ℕ) (reason : ApprovalReason)
      (s : Broker C E)
      → s.active ≡ none
      → s.queue ≡ job ∷ rest
      → HashMap.get job.request.id s.handles ≡ some handle
      → classify_risk job.request ≡ Risk.requires_approval reason
      → is_approved job.admission ≡ false
      → is_connected (sink_channel job.sink) s ≡ true
      → IsParked job reason now rest s (take_job now s)
  unfolding take_job
  take_job-IsParked job rest handle now reason s a q h k n c =
      let same =
        ap (λ o. take_from now o s.queue s) a
        ∙ ap (λ jobs. take_from now none jobs s) q
        ∙ take_risky job rest handle now reason s h k n in
      subst (IsParked job reason now rest s) (sym same) (park-IsParked job reason now rest s c)
