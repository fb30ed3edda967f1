-- ===== src/Broker/Bounds.antt =====
-- The sizes of the shared state of crates/wasi-runtime/src/broker.rs: what only shrinks it.
pub mod Worker
pub mod Whole
use ferrous_runtime.Prelude.{
  ◌≡◌, ◌==◌, ℕ, length, ◌∙◌, ◌≤◌, arith, Option-cases, max, inl, inr, refl,
}
use ferrous_runtime.HashMap
use ferrous_runtime.Broker.State.{
  Terminal, Broker, send, send_terminal, release, ChannelId, JobSink, record_entry, Job, Message,
  sink_channel, AuditEntry, ApprovalDecision, terminal_message, AuditOutcome,
  default_max_audit_entries, entry_of,
}
use ferrous_runtime.Broker.Calls.{
  cancel, close_parked, send_job, approve_job, approve, deny, cancel_live,
}
use ferrous_runtime.Broker.Sweeper.{expire}
use ferrous_runtime.Broker.Audit.{length-push_entry}

module _ {C E : Type 0} where
  -- The step registers no session, and the audit trail grows to its bound at most.
  abbrev pub Shrinks : Broker C E → Broker C E → Type 0
  Shrinks s s' =
      (s'.capacity ≡ s.capacity)
      × (length s'.handles ≤ length s.handles)
      × (length s'.audit ≤ max default_max_audit_entries (length s.audit))

  pub send-Shrinks : (d : ChannelId) (m : Message E) (s : Broker C E) → Shrinks s (send d m s).0
  unfolding send
  send-Shrinks d m s = ground arith

  pub send_terminal-Shrinks :
      (sink : JobSink) (t : Terminal) (s : Broker C E) → Shrinks s (send_terminal sink t s)
  unfolding send_terminal
  send_terminal-Shrinks sink t s = send-Shrinks (sink_channel sink) (terminal_message sink t) s

  -- Recording an entry and releasing a handle shrinks whatever shrank before.
  pub ended-Shrinks :
      (id : ℕ) (entry : AuditEntry) (s m : Broker C E)
      → Shrinks s m
      → Shrinks s (release id (record_entry entry m))
  unfolding release record_entry
  ended-Shrinks id entry s m (a, b, c) = (
    a,
    omega (arith, HashMap.length-remove-le id m.handles),
    omega (arith, length-push_entry entry m.audit),
  )

  pub close_parked-Shrinks :
      (id : ℕ) (job : Job C) (t : Terminal) (d : ApprovalDecision) (o : AuditOutcome)
      (s : Broker C E)
      → Shrinks s (close_parked id job t d o s)
  unfolding close_parked
  close_parked-Shrinks id job t d o s =
      ended-Shrinks id (entry_of id job d o) s (send_terminal job.sink t s)
        (send_terminal-Shrinks job.sink t s)

  pub send_job-Shrinks : (job : Job C) (s : Broker C E) → Shrinks s (send_job job s).0
  unfolding send_job release
  send_job-Shrinks job s = ground (arith, HashMap.length-remove-le job.request.id s.handles)

  module _ (id : ℕ) (s : Broker C E) where
    pub approve_job-Shrinks : (job : Job C) → Shrinks s (approve_job id job s).0
    unfolding approve_job
    approve_job-Shrinks job = ground (
      arith,
      close_parked-Shrinks id job Terminal.cancelled ApprovalDecision.cancelled
          AuditOutcome.cancelled s,
      send_job-Shrinks (record job { admission = ApprovalDecision.approved }) s,
    )

  module _ (id : ℕ) (s : Broker C E) where
    pub approve-Shrinks : Shrinks s (approve id s).0
    unfolding approve
    approve-Shrinks = elim (Option-cases (HashMap.get id s.pending)) [
      | inl e ↦ rw (e, approve) (refl, omega arith, omega arith)
      | inr (p, e) ↦
          rw (e, approve)
            (approve_job-Shrinks id (record s { pending = HashMap.remove id s.pending }) p.job)
    ]

    pub deny-Shrinks : Shrinks s (deny id s).0
    unfolding deny
    deny-Shrinks = elim (Option-cases (HashMap.get id s.pending)) [
      | inl e ↦ rw (e, deny) (refl, omega arith, omega arith)
      | inr (p, e) ↦
          rw (e, deny)
            (close_parked-Shrinks id p.job Terminal.denied ApprovalDecision.denied
              AuditOutcome.denied (record s { pending = HashMap.remove id s.pending }))
    ]

    pub cancel-Shrinks : Shrinks s (cancel id s).0
    unfolding cancel cancel_live
    cancel-Shrinks = elim (Option-cases (HashMap.get id s.pending)) [
      | inl e ↦ rw (e, cancel) (ground arith)
      | inr (p, e) ↦
          rw (e, cancel)
            (close_parked-Shrinks id p.job Terminal.cancelled ApprovalDecision.cancelled
              AuditOutcome.cancelled (record s { pending = HashMap.remove id s.pending }))
    ]

    pub expire-Shrinks : Shrinks s (expire id s)
    unfolding expire
    expire-Shrinks = elim (Option-cases (HashMap.get id s.pending)) [
      | inl e ↦ rw (e, expire) (refl, omega arith, omega arith)
      | inr (p, e) ↦
          rw (e, expire)
            (close_parked-Shrinks id p.job Terminal.denied ApprovalDecision.timed_out
              AuditOutcome.denied (record s { pending = HashMap.remove id s.pending }))
    ]
