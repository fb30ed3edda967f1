-- ===== src/Broker/Order/Calls.antt =====
-- The order of messages in the calls of crates/wasi-runtime/src/broker.rs.
use ferrous_runtime.Prelude.{
  ◌≡◌, ◌==◌, ◌∷◌, ◌+◌, ◌≤◌, [], ℕ, true, some, ltb, arith, inl, inr, Option-cases, all-append, all,
}
use ferrous_runtime.HashMap
use ferrous_runtime.Command.Request.{CommandRequest}
use ferrous_runtime.Broker.State.{
  Broker, Job, PendingJob, JobSink, ChannelId, Terminal, ApprovalDecision, AuditOutcome,
  sink_channel, is_connected, release,
}
use ferrous_runtime.Broker.Calls.{
  submit_with, enqueue, send_job, register, check_request, new_job, approve, approve_job, deny,
  cancel, cancel_live, close_parked,
}
use ferrous_runtime.Broker.Sweeper.{expire}
use ferrous_runtime.Broker.Tally.{tally, one_if}
use ferrous_runtime.Broker.Tally.Calls.{unparked}
use ferrous_runtime.Broker.Order.{
  Stage, is_asked, fits_queued, queued_fits, parked_fits, stage_of, ordered, KeepsOrdered, Owns,
}
use ferrous_runtime.Broker.Order.Send.{is_open, close_parked-KeepsOrdered, Owns_weaken}

asked_is_open : (st : Stage) → is_asked st ≡ true → is_open st ≡ true
asked_is_open st h = ground arith

module _ {C E : Type 0} (c : ChannelId) where
  -- A job that is queued is known to its receiver as one of its kind.
  pub send_job-KeepsOrdered :
      (job : Job C) (s : Broker C E)
      → ((sink_channel job.sink == c) ≡ true
          → is_connected c s ≡ true
          → fits_queued job (stage_of c s) ≡ true)
      → KeepsOrdered c s (send_job job s).0
  unfolding send_job release ordered is_connected
  send_job-KeepsOrdered job s fit k =
      ground (arith, all-append (queued_fits c (stage_of c s)) s.queue (job ∷ []))

  pub submit_with-KeepsOrdered :
      (sink : ChannelId → JobSink) (compiled : C) (request : CommandRequest) (s : Broker C E)
      → ((d : ChannelId) → sink_channel (sink d) ≡ d)
      → KeepsOrdered c s (submit_with sink compiled request s).0
  unfolding submit_with check_request new_job enqueue register ordered is_connected
  submit_with-KeepsOrdered sink compiled request s own k =
      let opened = record s { next_channel = s.next_channel + 1 } in
      let registered = register request.id opened in
      let job = new_job compiled request (sink s.next_channel) in
      ground (arith, own s.next_channel, send_job-KeepsOrdered job registered)

  -- The state without the session that is parked under the id.
  module _ (id : ℕ) (s : Broker C E) where
    abbrev pub taken : Broker C E
    taken = record s { pending = HashMap.remove id s.pending }

    pub taken-KeepsOrdered : KeepsOrdered c s taken
    unfolding ordered is_connected
    taken-KeepsOrdered k =
        ground (arith, HashMap.all-remove (parked_fits c (stage_of c s)) id s.pending)

    -- One who takes a parked session out is the only one to hold its channel.
    taken-Owns :
        (p : PendingJob C)
        → tally c s ≤ one_if (ltb c s.next_channel)
        → ordered c s ≡ true
        → HashMap.get id s.pending ≡ some p
        → Owns c is_asked p.job.sink taken
    unfolding ordered is_connected tally
    taken-Owns p once k e same = (
      ground (arith, unparked c id s p e),
      ground (arith, unparked c id s p e),
      λ h. ground (
        arith,
        λ (all_fit : all (parked_fits c (stage_of c s)) s.pending ≡ true).
            HashMap.all-get (parked_fits c (stage_of c s)) id s.pending all_fit e,
      ),
    )

    module _ (once : tally c s ≤ one_if (ltb c s.next_channel)) where
      closed-KeepsOrdered :
          (p : PendingJob C) (t : Terminal) (d : ApprovalDecision) (o : AuditOutcome)
          → HashMap.get id s.pending ≡ some p
          → KeepsOrdered c s (close_parked id p.job t d o taken)
      closed-KeepsOrdered p t d o e k =
          let own =
            Owns_weaken c is_asked is_open p.job.sink taken asked_is_open (taken-Owns p once k e) in
          close_parked-KeepsOrdered c id p.job t d o taken own (taken-KeepsOrdered k)

      pub deny-KeepsOrdered : KeepsOrdered c s (deny id s).0
      unfolding deny
      deny-KeepsOrdered k = elim (Option-cases (HashMap.get id s.pending)) [
        | inl e ↦ rw (e, deny) k
        | inr (p, e) ↦
            rw (e, deny)
              (closed-KeepsOrdered p Terminal.denied ApprovalDecision.denied AuditOutcome.denied e
                k)
      ]

      pub expire-KeepsOrdered : KeepsOrdered c s (expire id s)
      unfolding expire
      expire-KeepsOrdered k = elim (Option-cases (HashMap.get id s.pending)) [
        | inl e ↦ rw (e, expire) k
        | inr (p, e) ↦
            rw (e, expire)
              (closed-KeepsOrdered p Terminal.denied ApprovalDecision.timed_out AuditOutcome.denied
                e k)
      ]

      cancel_live-KeepsOrdered : KeepsOrdered c s (cancel_live id s).0
      unfolding cancel_live ordered is_connected
      cancel_live-KeepsOrdered k = ground arith

      pub cancel-KeepsOrdered : KeepsOrdered c s (cancel id s).0
      unfolding cancel
      cancel-KeepsOrdered k = elim (Option-cases (HashMap.get id s.pending)) [
        | inl e ↦ rw (e, cancel) (cancel_live-KeepsOrdered k)
        | inr (p, e) ↦
            rw (e, cancel)
              (closed-KeepsOrdered p Terminal.cancelled ApprovalDecision.cancelled
                AuditOutcome.cancelled e k)
      ]

      approve_job-KeepsOrdered :
          (p : PendingJob C)
          → HashMap.get id s.pending ≡ some p
          → KeepsOrdered c s (approve_job id p.job taken).0
      unfolding approve_job
      approve_job-KeepsOrdered p e k =
          let own = taken-Owns p once k e in
          let open_one = Owns_weaken c is_asked is_open p.job.sink taken asked_is_open own in
          ground (
            arith,
            taken-KeepsOrdered k,
            close_parked-KeepsOrdered c id p.job Terminal.cancelled ApprovalDecision.cancelled
                AuditOutcome.cancelled taken open_one,
            send_job-KeepsOrdered (record p.job { admission = ApprovalDecision.approved }) taken
                (λ same h. (own same).2 h),
          )

      pub approve-KeepsOrdered : KeepsOrdered c s (approve id s).0
      unfolding approve
      approve-KeepsOrdered k = elim (Option-cases (HashMap.get id s.pending)) [
        | inl e ↦ rw (e, approve) k
        | inr (p, e) ↦ rw (e, approve) (approve_job-KeepsOrdered p e k)
      ]
