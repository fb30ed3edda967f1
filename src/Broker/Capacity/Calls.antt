-- ===== src/Broker/Capacity/Calls.antt =====
-- The sessions and their handles under the calls of crates/wasi-runtime/src/broker.rs.
use ferrous_runtime.Prelude.{
  ◌≡◌, ◌==◌, ◌≤◌, ◌+◌, ℕ, some, true, all, arith, Option-cases, inl, inr, ap, refl, if◌then◌else◌,
}
use ferrous_runtime.HashMap
use ferrous_runtime.Command.Request.{CommandRequest}
use ferrous_runtime.Broker.State.{
  Broker, Job, PendingJob, JobSink, ChannelId, Terminal, ApprovalDecision, AuditOutcome, release,
}
use ferrous_runtime.Broker.Calls.{
  submit_with, check_request, enqueue, register, send_job, new_job, approve, approve_job, deny,
  cancel, cancel_live, close_parked,
}
use ferrous_runtime.Broker.Sweeper.{expire}
use ferrous_runtime.Broker.Approval.{parked_ok}
use ferrous_runtime.Broker.Accounted.{keys}
use ferrous_runtime.Broker.Accounted.Ids.{queue_ids-append, keys-removed}
use ferrous_runtime.Broker.Tally.{one_if}
use ferrous_runtime.Broker.Capacity.{present, Placed, keys-remove, close_parked-Placed}

module _ {C E : Type 0} (i : ℕ) where
  pub send_job-Placed :
      (job : Job C) (s : Broker C E) → Placed i (one_if (job.request.id == i)) s (send_job job s).0
  unfolding send_job release present
  send_job-Placed job s =
      ground (arith, queue_ids-append i s.queue job, keys-remove i job.request.id s.handles)

  register-keys :
      (id : ℕ) (s : Broker C E)
      → keys i (register id s).handles ≡ (if id == i then 1 else keys i s.handles)
  unfolding register keys HashMap.insert
  register-keys id s = ground (arith, keys-remove i id s.handles)

  register-present : (id : ℕ) (s : Broker C E) → present i (register id s) ≡ present i s
  unfolding register present
  register-present id s = refl

  pub submit_with-Placed :
      (sink : ChannelId → JobSink) (compiled : C) (request : CommandRequest) (s : Broker C E)
      → (present i (submit_with sink compiled request s).0 ≤ present i s + one_if (request.id == i))
        × (present i s + one_if (request.id == i) ≤ 1
            → present i s ≤ keys i s.handles
            → present i (submit_with sink compiled request s).0
              ≤ keys i (submit_with sink compiled request s).0.handles)
  unfolding submit_with check_request new_job enqueue present
  submit_with-Placed sink compiled request s =
      let opened = record s { next_channel = s.next_channel + 1 } in
      let job = new_job compiled request (sink s.next_channel) in
      let registered = register request.id opened in
      ground (
        arith,
        send_job-Placed job registered,
        register-keys request.id opened,
        register-present request.id opened,
      )

  module _ (id : ℕ) (s : Broker C E) where
    -- What is done with a job that was taken out of the parked ones.
    taken-Placed :
        (p : PendingJob C) (s' : Broker C E)
        → HashMap.get id s.pending ≡ some p
        → Placed i (one_if (id == i)) (record s { pending = HashMap.remove id s.pending }) s'
        → Placed i 0 s s'
    unfolding present
    taken-Placed p s' e (a, b) = ground (arith, keys-removed i id s.pending p e)

    closed-Placed :
        (p : PendingJob C) (t : Terminal) (d : ApprovalDecision) (o : AuditOutcome)
        → HashMap.get id s.pending ≡ some p
        → Placed i 0 s
            (close_parked id p.job t d o (record s { pending = HashMap.remove id s.pending }))
    closed-Placed p t d o e =
        taken-Placed p _ e (
          close_parked-Placed i id p.job t d o (record s { pending = HashMap.remove id s.pending }))

    pub deny-Placed : Placed i 0 s (deny id s).0
    unfolding deny
    deny-Placed = elim (Option-cases (HashMap.get id s.pending)) [
      | inl e ↦ rw (e, deny) (omega arith, λ a b. omega arith)
      | inr (p, e) ↦
          rw (e, deny)
            (closed-Placed p Terminal.denied ApprovalDecision.denied AuditOutcome.denied e)
    ]

    pub expire-Placed : Placed i 0 s (expire id s)
    unfolding expire
    expire-Placed = elim (Option-cases (HashMap.get id s.pending)) [
      | inl e ↦ rw (e, expire) (omega arith, λ a b. omega arith)
      | inr (p, e) ↦
          rw (e, expire)
            (closed-Placed p Terminal.denied ApprovalDecision.timed_out AuditOutcome.denied e)
    ]

    cancel_live-Placed : Placed i 0 s (cancel_live id s).0
    unfolding cancel_live present
    cancel_live-Placed = ground arith

    pub cancel-Placed : Placed i 0 s (cancel id s).0
    unfolding cancel
    cancel-Placed = elim (Option-cases (HashMap.get id s.pending)) [
      | inl e ↦ rw (e, cancel) cancel_live-Placed
      | inr (p, e) ↦
          rw (e, cancel)
            (closed-Placed p Terminal.cancelled ApprovalDecision.cancelled AuditOutcome.cancelled e)
    ]

    approve_job-Placed :
        (job : Job C) (t : Broker C E)
        → job.request.id ≡ id
        → Placed i (one_if (id == i)) t (approve_job id job t).0
    unfolding approve_job
    approve_job-Placed job t own = ground (
      arith,
      ap (λ k. one_if (k == i)) own,
      close_parked-Placed i id job Terminal.cancelled ApprovalDecision.cancelled
          AuditOutcome.cancelled t,
      send_job-Placed (record job { admission = ApprovalDecision.approved }) t,
    )

    pub approve-Placed : all parked_ok s.pending ≡ true → Placed i 0 s (approve id s).0
    unfolding approve
    approve-Placed safe = elim (Option-cases (HashMap.get id s.pending)) [
      | inl e ↦ rw (e, approve) (omega arith, λ a b. omega arith)
      | inr (p, e) ↦
          let own : p.job.request.id ≡ id =
            ground (arith, HashMap.all-get parked_ok id s.pending safe e) in
          rw (e, approve)
            (taken-Placed p _ e
              (approve_job-Placed p.job (record s { pending = HashMap.remove id s.pending }) own))
    ]
