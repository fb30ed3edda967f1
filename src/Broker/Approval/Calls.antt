-- ===== src/Broker/Approval/Calls.antt =====
-- The approval gate in the calls of crates/wasi-runtime/src/broker.rs.
use ferrous_runtime.Prelude.{
  ◌≡◌, ℕ, Bool, arith, true, Option-cases, all-append, inl, ◌∷◌, ◌∙◌, inr, [], ◌+◌, ap,
}
use ferrous_runtime.HashMap
use ferrous_runtime.Broker.Calls.{
  cancel, close_parked, send_job, submit_with, check_request, approve_job, approve, deny,
  cancel_live, new_job, enqueue, register,
}
use ferrous_runtime.Broker.State.{
  Terminal, send, send_terminal, Broker, ChannelId, JobSink, release, Job, Message, sink_channel,
  record_entry, ApprovalDecision, terminal_message, AuditOutcome,
}
use ferrous_runtime.Broker.Approval.{is_safe, KeepsSafe, job_ok, parked_ok}
use ferrous_runtime.Broker.Sweeper.{expire}
use ferrous_runtime.Command.Request.{CommandRequest}

module _ {C E : Type 0} (may : ℕ → Bool) where
  pub send-is_safe :
      (d : ChannelId) (m : Message E) (s : Broker C E) → is_safe may (send d m s).0 ≡ is_safe may s
  unfolding send is_safe
  send-is_safe d m s = ground arith

  pub send_terminal-is_safe :
      (sink : JobSink) (t : Terminal) (s : Broker C E)
      → is_safe may (send_terminal sink t s) ≡ is_safe may s
  unfolding send_terminal
  send_terminal-is_safe sink t s = send-is_safe (sink_channel sink) (terminal_message sink t) s

  pub close_parked-is_safe :
      (id : ℕ) (job : Job C) (t : Terminal) (d : ApprovalDecision) (o : AuditOutcome)
      (s : Broker C E)
      → is_safe may (close_parked id job t d o s) ≡ is_safe may s
  unfolding close_parked release record_entry is_safe
  close_parked-is_safe id job t d o s = send_terminal-is_safe job.sink t s

  pub send_job-KeepsSafe :
      (job : Job C) (s : Broker C E) → job_ok may job ≡ true → KeepsSafe may s (send_job job s).0
  unfolding send_job release is_safe
  send_job-KeepsSafe job s h k = ground (arith, all-append (job_ok may) s.queue (job ∷ []))

  pub submit_with-KeepsSafe :
      (sink : ChannelId → JobSink) (compiled : C) (request : CommandRequest) (s : Broker C E)
      → KeepsSafe may s (submit_with sink compiled request s).0
  unfolding submit_with check_request new_job enqueue register is_safe
  submit_with-KeepsSafe sink compiled request s k =
      let opened = record s { next_channel = s.next_channel + 1 } in
      ground (
        arith,
        send_job-KeepsSafe (new_job compiled request (sink s.next_channel))
            (register request.id opened),
      )

  pub unparked-KeepsSafe :
      (id : ℕ) (s : Broker C E)
      → KeepsSafe may s (record s { pending = HashMap.remove id s.pending })
  unfolding is_safe
  unparked-KeepsSafe id s k = ground (arith, HashMap.all-remove parked_ok id s.pending)

  module _ (id : ℕ) (s : Broker C E) where
    pub closed-KeepsSafe :
        (job : Job C) (t : Terminal) (d : ApprovalDecision) (o : AuditOutcome)
        → KeepsSafe may s
            (close_parked id job t d o (record s { pending = HashMap.remove id s.pending }))
    closed-KeepsSafe job t d o k =
        close_parked-is_safe id job t d o (record s { pending = HashMap.remove id s.pending })
        ∙ unparked-KeepsSafe id s k

    pub approve_job-KeepsSafe :
        (job : Job C) → may job.request.id ≡ true → KeepsSafe may s (approve_job id job s).0
    unfolding approve_job
    approve_job-KeepsSafe job m k = ground (
      arith,
      close_parked-is_safe id job Terminal.cancelled ApprovalDecision.cancelled
          AuditOutcome.cancelled s,
      send_job-KeepsSafe (record job { admission = ApprovalDecision.approved }) s,
    )

  module _ (id : ℕ) (s : Broker C E) where
    -- An approval makes the session that is parked under the id runnable, and no other.
    pub approve-KeepsSafe : may id ≡ true → KeepsSafe may s (approve id s).0
    unfolding approve is_safe
    approve-KeepsSafe m k = elim (Option-cases (HashMap.get id s.pending)) [
      | inl e ↦ rw (e, approve) k
      | inr (p, e) ↦
          let own : p.job.request.id ≡ id =
            ground (arith, HashMap.all-get parked_ok id s.pending (ground arith) e) in
          rw (e, approve)
            (approve_job-KeepsSafe id (record s { pending = HashMap.remove id s.pending }) p.job
              (ap may own ∙ m) (unparked-KeepsSafe id s k))
    ]

    pub deny-KeepsSafe : KeepsSafe may s (deny id s).0
    unfolding deny
    deny-KeepsSafe k = elim (Option-cases (HashMap.get id s.pending)) [
      | inl e ↦ rw (e, deny) k
      | inr (p, e) ↦
          rw (e, deny)
            (closed-KeepsSafe id s p.job Terminal.denied ApprovalDecision.denied AuditOutcome.denied
              k)
    ]

    pub cancel-KeepsSafe : KeepsSafe may s (cancel id s).0
    unfolding cancel cancel_live is_safe
    cancel-KeepsSafe k = elim (Option-cases (HashMap.get id s.pending)) [
      | inl e ↦ rw (e, cancel) (ground arith)
      | inr (p, e) ↦
          rw (e, cancel)
            (closed-KeepsSafe id s p.job Terminal.cancelled ApprovalDecision.cancelled
              AuditOutcome.cancelled k)
    ]

    pub expire-KeepsSafe : KeepsSafe may s (expire id s)
    unfolding expire
    expire-KeepsSafe k = elim (Option-cases (HashMap.get id s.pending)) [
      | inl e ↦ rw (e, expire) k
      | inr (p, e) ↦
          rw (e, expire)
            (closed-KeepsSafe id s p.job Terminal.denied ApprovalDecision.timed_out
              AuditOutcome.denied k)
    ]
