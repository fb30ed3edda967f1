-- ===== src/Broker/Tally/Calls.antt =====
-- The tally of a channel in the calls of crates/wasi-runtime/src/broker.rs.
use ferrous_runtime.Prelude.{
  refl, ◌==◌, ℕ, ◌≤◌, ◌≡◌, arith, ◌+◌, true, ◌&&◌, Option-cases, some, inl, inr,
}
use ferrous_runtime.HashMap
use ferrous_runtime.Broker.State.{
  Broker, Message, Job, JobSink, ChannelId, Terminal, ApprovalDecision, AuditOutcome, sink_channel,
  send, send_terminal, terminal_message, release, record_entry, PendingJob,
}
use ferrous_runtime.Broker.Calls.{
  cancel, close_parked, send_job, approve_job, approve, deny, cancel_live, enqueue, register,
}
use ferrous_runtime.Broker.Tally.{
  tally, is_terminal, holds, terminals, one_if, queued-append, parked-remove, Within,
}
use ferrous_runtime.Broker.Sweeper.{expire}

pub terminal_message-IsTerminal :
    (E : Type 0) (sink : JobSink) (t : Terminal)
    → is_terminal (terminal_message {E = E} sink t) ≡ true
unfolding terminal_message
terminal_message-IsTerminal E (JobSink.outcome d) t = ground arith
terminal_message-IsTerminal E (JobSink.events d) t = ground arith

module _ {C E : Type 0} (c : ChannelId) where
  pub send-Within :
      (d : ChannelId) (m : Message E) (s : Broker C E)
      → Within c (one_if (is_terminal m && d == c)) s (send d m s).0
  unfolding send tally terminals
  send-Within d m s = ground arith

  pub send_terminal-Within :
      (sink : JobSink) (t : Terminal) (s : Broker C E)
      → Within c (holds c sink) s (send_terminal sink t s)
  unfolding send_terminal
  send_terminal-Within sink t s =
      ground (arith, send-Within (sink_channel sink) (terminal_message sink t) s)

  pub close_parked-Within :
      (id : ℕ) (job : Job C) (t : Terminal) (d : ApprovalDecision) (o : AuditOutcome)
      (s : Broker C E)
      → Within c (holds c job.sink) s (close_parked id job t d o s)
  unfolding close_parked release record_entry tally
  close_parked-Within id job t d o s = ground (arith, send_terminal-Within job.sink t s)

  pub send_job-Within :
      (job : Job C) (s : Broker C E) → Within c (holds c job.sink) s (send_job job s).0
  unfolding send_job release tally
  send_job-Within job s = ground (arith, queued-append c s.queue job)

  pub enqueue-Within :
      (job : Job C) (s : Broker C E) → Within c (holds c job.sink) s (enqueue job s).0
  unfolding enqueue register tally
  enqueue-Within job s = ground (arith, send_job-Within job (register job.request.id s))

  -- Taking a parked job out makes room for what it may send.
  pub unparked :
      (id : ℕ) (s : Broker C E) (p : PendingJob C)
      → HashMap.get id s.pending ≡ some p
      → tally c (record s { pending = HashMap.remove id s.pending }) + holds c p.job.sink
        ≤ tally c s
  unfolding tally
  unparked id s p h = omega (arith, parked-remove c id s.pending p h)

  module _ (id : ℕ) (s : Broker C E) where
    pub closed-Within :
        (p : PendingJob C) (t : Terminal) (d : ApprovalDecision) (o : AuditOutcome)
        → HashMap.get id s.pending ≡ some p
        → Within c 0 s
            (close_parked id p.job t d o (record s { pending = HashMap.remove id s.pending }))
    closed-Within p t d o h =
        let (less, same) =
          close_parked-Within id p.job t d o (record s { pending = HashMap.remove id s.pending }) in
        (omega (arith, unparked id s p h), same)

    pub approve_job-Within : (job : Job C) → Within c (holds c job.sink) s (approve_job id job s).0
    unfolding approve_job
    approve_job-Within job = ground (
      arith,
      close_parked-Within id job Terminal.cancelled ApprovalDecision.cancelled
          AuditOutcome.cancelled s,
      send_job-Within (record job { admission = ApprovalDecision.approved }) s,
    )

  module _ (id : ℕ) (s : Broker C E) where
    pub approve-Within : Within c 0 s (approve id s).0
    unfolding approve
    approve-Within = elim (Option-cases (HashMap.get id s.pending)) [
      | inl e ↦ rw (e, approve) (omega arith, refl)
      | inr (p, e) ↦
          rw (e, approve)
            (let (less, same) =
                approve_job-Within id (record s { pending = HashMap.remove id s.pending }) p.job in
              (omega (arith, unparked id s p e), same))
    ]

    pub deny-Within : Within c 0 s (deny id s).0
    unfolding deny
    deny-Within = elim (Option-cases (HashMap.get id s.pending)) [
      | inl e ↦ rw (e, deny) (omega arith, refl)
      | inr (p, e) ↦
          rw (e, deny)
            (closed-Within id s p Terminal.denied ApprovalDecision.denied AuditOutcome.denied e)
    ]

    pub cancel_live-Within : Within c 0 s (cancel_live id s).0
    unfolding cancel_live tally
    cancel_live-Within = ground arith

    pub cancel-Within : Within c 0 s (cancel id s).0
    unfolding cancel
    cancel-Within = elim (Option-cases (HashMap.get id s.pending)) [
      | inl e ↦ rw (e, cancel) cancel_live-Within
      | inr (p, e) ↦
          rw (e, cancel)
            (closed-Within id s p Terminal.cancelled ApprovalDecision.cancelled
              AuditOutcome.cancelled e)
    ]

    pub expire-Within : Within c 0 s (expire id s)
    unfolding expire
    expire-Within = elim (Option-cases (HashMap.get id s.pending)) [
      | inl e ↦ rw (e, expire) (omega arith, refl)
      | inr (p, e) ↦
          rw (e, expire)
            (closed-Within id s p Terminal.denied ApprovalDecision.timed_out AuditOutcome.denied e)
    ]
