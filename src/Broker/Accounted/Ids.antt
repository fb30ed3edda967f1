-- ===== src/Broker/Accounted/Ids.antt =====
-- How many waiting sessions of crates/wasi-runtime/src/broker.rs have an id.
use ferrous_runtime.Prelude.{
  ◌≡◌, ◌==◌, ◌≤◌, ◌+◌, ◌∷◌, ◌++◌, [], ℕ, List, some, true, all, arith, Option-cases, inl, inr, ap,
}
use ferrous_runtime.HashMap
use ferrous_runtime.Command.Request.{CommandRequest}
use ferrous_runtime.Broker.State.{
  Broker, Job, PendingJob, JobSink, ChannelId, Message, Terminal, ApprovalDecision, AuditOutcome,
  send, send_terminal, terminal_message, sink_channel, release, record_entry,
}
use ferrous_runtime.Broker.Calls.{
  submit_with, check_request, enqueue, register, send_job, new_job, approve, approve_job, deny,
  cancel, cancel_live, close_parked,
}
use ferrous_runtime.Broker.Sweeper.{expire}
use ferrous_runtime.Broker.Approval.{parked_ok}
use ferrous_runtime.Broker.Accounted.{waiting, queue_ids, keys}
use ferrous_runtime.Broker.Tally.{one_if}

pub queue_ids-append :
    {C : Type 0} (i : ℕ) (jobs : List (Job C)) (job : Job C)
    → queue_ids i (jobs ++ job ∷ []) ≡ queue_ids i jobs + one_if (job.request.id == i)
unfolding queue_ids
queue_ids-append i [] job = omega arith
queue_ids-append i (j ∷ jobs) job = omega (arith, queue_ids-append i jobs job)

pub keys-remove-le :
    {V : Type 0} (i k : ℕ) (m : List (ℕ × V)) → keys i (HashMap.remove k m) ≤ keys i m
unfolding keys HashMap.remove
keys-remove-le i k [] = omega arith
keys-remove-le i k ((j, v) ∷ m) = ground (arith, keys-remove-le i k m)

pub keys-removed :
    {V : Type 0} (i k : ℕ) (m : List (ℕ × V)) (v : V)
    → HashMap.get k m ≡ some v
    → keys i (HashMap.remove k m) + one_if (k == i) ≤ keys i m
unfolding keys HashMap.remove HashMap.get
keys-removed i k [] v h = absurd (ground arith)
keys-removed i k ((j, u) ∷ m) v h = ground (arith, keys-removed i k m v, keys-remove-le i k m)

module _ {C E : Type 0} (i : ℕ) where
  pub send-waiting :
      (d : ChannelId) (m : Message E) (s : Broker C E) → waiting i (send d m s).0 ≡ waiting i s
  unfolding send waiting
  send-waiting d m s = ground arith

  pub send_terminal-waiting :
      (sink : JobSink) (t : Terminal) (s : Broker C E)
      → waiting i (send_terminal sink t s) ≡ waiting i s
  unfolding send_terminal
  send_terminal-waiting sink t s = send-waiting (sink_channel sink) (terminal_message sink t) s

  close_parked-waiting :
      (id : ℕ) (job : Job C) (t : Terminal) (d : ApprovalDecision) (o : AuditOutcome)
      (s : Broker C E)
      → waiting i (close_parked id job t d o s) ≡ waiting i s
  unfolding close_parked release record_entry waiting
  close_parked-waiting id job t d o s = send_terminal-waiting job.sink t s

  send_job-waiting :
      (job : Job C) (s : Broker C E)
      → waiting i (send_job job s).0 ≤ waiting i s + one_if (job.request.id == i)
  unfolding send_job release waiting
  send_job-waiting job s = ground (arith, queue_ids-append i s.queue job)

  pub submit_with-waiting :
      (sink : ChannelId → JobSink) (compiled : C) (request : CommandRequest) (s : Broker C E)
      → waiting i (submit_with sink compiled request s).0 ≤ waiting i s + one_if (request.id == i)
  unfolding submit_with check_request new_job enqueue register waiting
  submit_with-waiting sink compiled request s =
      let opened = record s { next_channel = s.next_channel + 1 } in
      let job = new_job compiled request (sink s.next_channel) in
      ground (arith, send_job-waiting job (register request.id opened))

  module _ (id : ℕ) (s : Broker C E) where
    taken-waiting :
        (p : PendingJob C)
        → HashMap.get id s.pending ≡ some p
        → waiting i (record s { pending = HashMap.remove id s.pending }) + one_if (id == i)
          ≤ waiting i s
    unfolding waiting
    taken-waiting p e = omega (arith, keys-removed i id s.pending p e)

    closed-waiting :
        (p : PendingJob C) (t : Terminal) (d : ApprovalDecision) (o : AuditOutcome)
        → HashMap.get id s.pending ≡ some p
        → waiting i
            (close_parked id p.job t d o (record s { pending = HashMap.remove id s.pending }))
          ≤ waiting i s
    closed-waiting p t d o e = omega (
      arith,
      close_parked-waiting id p.job t d o (record s { pending = HashMap.remove id s.pending }),
      taken-waiting p e,
    )

    pub deny-waiting : waiting i (deny id s).0 ≤ waiting i s
    unfolding deny
    deny-waiting = elim (Option-cases (HashMap.get id s.pending)) [
      | inl e ↦ rw (e, deny) (omega arith)
      | inr (p, e) ↦
          rw (e, deny)
            (closed-waiting p Terminal.denied ApprovalDecision.denied AuditOutcome.denied e)
    ]

    pub expire-waiting : waiting i (expire id s) ≤ waiting i s
    unfolding expire
    expire-waiting = elim (Option-cases (HashMap.get id s.pending)) [
      | inl e ↦ rw (e, expire) (omega arith)
      | inr (p, e) ↦
          rw (e, expire)
            (closed-waiting p Terminal.denied ApprovalDecision.timed_out AuditOutcome.denied e)
    ]

    cancel_live-waiting : waiting i (cancel_live id s).0 ≡ waiting i s
    unfolding cancel_live waiting
    cancel_live-waiting = ground arith

    pub cancel-waiting : waiting i (cancel id s).0 ≤ waiting i s
    unfolding cancel
    cancel-waiting = elim (Option-cases (HashMap.get id s.pending)) [
      | inl e ↦ rw (e, cancel) (omega (arith, cancel_live-waiting))
      | inr (p, e) ↦
          rw (e, cancel)
            (closed-waiting p Terminal.cancelled ApprovalDecision.cancelled AuditOutcome.cancelled
              e)
    ]

    approve_job-waiting :
        (p : PendingJob C)
        → HashMap.get id s.pending ≡ some p
        → p.job.request.id ≡ id
        → waiting i (approve_job id p.job (record s { pending = HashMap.remove id s.pending })).0
          ≤ waiting i s
    unfolding approve_job
    approve_job-waiting p e own =
        let taken = record s { pending = HashMap.remove id s.pending } in
        ground (
          arith,
          taken-waiting p e,
          ap (λ k. one_if (k == i)) own,
          close_parked-waiting id p.job Terminal.cancelled ApprovalDecision.cancelled
              AuditOutcome.cancelled taken,
          send_job-waiting (record p.job { admission = ApprovalDecision.approved }) taken,
        )

    pub approve-waiting : all parked_ok s.pending ≡ true → waiting i (approve id s).0 ≤ waiting i s
    unfolding approve
    approve-waiting safe = elim (Option-cases (HashMap.get id s.pending)) [
      | inl e ↦ rw (e, approve) (omega arith)
      | inr (p, e) ↦
          let own : p.job.request.id ≡ id =
            ground (arith, HashMap.all-get parked_ok id s.pending safe e) in
          rw (e, approve) (approve_job-waiting p e own)
    ]
