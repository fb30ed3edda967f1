-- ===== src/Broker/Accounted/Calls.antt =====
-- Who owes an end in the calls of crates/wasi-runtime/src/broker.rs.
use ferrous_runtime.Prelude.{
  ◌≡◌, ◌==◌, ◌≤◌, ◌+◌, ◌∷◌, [], ℕ, List, some, true, arith, refl, Option-cases, Bool-cases, inl,
  inr, sym, subst, ap, ◌∙◌,
}
use ferrous_runtime.HashMap
use ferrous_runtime.Command.Request.{CommandRequest}
use ferrous_runtime.Broker.State.{
  Broker, Job, PendingJob, JobSink, ChannelId, Message, Terminal, ApprovalDecision, AuditOutcome,
  send, send_terminal, terminal_message, sink_channel, release, record_entry, is_connected,
}
use ferrous_runtime.Broker.Calls.{
  submit_with, check_request, enqueue, register, send_job, new_job, approve, approve_job, deny,
  cancel, cancel_live, close_parked,
}
use ferrous_runtime.Broker.Sweeper.{expire}
use ferrous_runtime.Broker.Tally.{
  tally, terminals, parked, holds, one_if, is_terminal, queued-append,
}
use ferrous_runtime.Broker.Tally.Calls.{terminal_message-IsTerminal}
use ferrous_runtime.Broker.Accounted.{owes, Pays, keys}

-- A removal takes out the one entry of its key, or none.
pub parked-remove_absent :
    {C : Type 0} (c k : ℕ) (m : List (ℕ × PendingJob C))
    → keys k m ≡ 0
    → parked c (HashMap.remove k m) ≡ parked c m
unfolding parked keys HashMap.remove
parked-remove_absent c k [] h = refl
parked-remove_absent c k ((j, p) ∷ m) h = ground (arith, parked-remove_absent c k m)

parked-remove_one :
    {C : Type 0} (c k : ℕ) (m : List (ℕ × PendingJob C)) (p : PendingJob C)
    → keys k m ≤ 1
    → HashMap.get k m ≡ some p
    → parked c m ≤ parked c (HashMap.remove k m) + holds c p.job.sink
unfolding parked keys HashMap.remove HashMap.get
parked-remove_one c k [] p h e = absurd (ground arith)
parked-remove_one c k ((j, q) ∷ m) p h e =
    ground (arith, parked-remove_one c k m p, parked-remove_absent c k m)

module _ {C E : Type 0} (c : ChannelId) where
  pub send-Pays :
      (n : ℕ) (d : ChannelId) (m : Message E) (s : Broker C E)
      → owes c n s ≡ true
      → owes c n (send d m s).0 ≡ true
  unfolding send owes tally terminals is_connected
  send-Pays n d m s h = ground arith

  end_here : (m : Message E) (s : Broker C E) → is_terminal m ≡ true → Pays c 1 s (send c m s).0
  unfolding send owes tally terminals is_connected
  end_here m s t h = ground arith

  -- The end of a session pays what its job owes.
  pub end-Pays :
      (sink : JobSink) (m : Message E) (s : Broker C E)
      → is_terminal m ≡ true
      → Pays c (holds c sink) s (send (sink_channel sink) m s).0
  end-Pays sink m s t h = elim (Bool-cases (sink_channel sink == c)) [
    | inl same ↦
        let channel : sink_channel sink ≡ c = ground arith in
        let one : owes c 1 s ≡ true = ap (λ b. owes c (one_if b) s) (sym same) ∙ h in
        subst (λ d. owes c 0 (send d m s).0 ≡ true) (sym channel) (end_here m s t one)
    | inr other ↦
        let zero_left : owes c 0 s ≡ true = ap (λ b. owes c (one_if b) s) (sym other) ∙ h in
        send-Pays 0 (sink_channel sink) m s zero_left
  ]

  pub send_terminal-Pays :
      (sink : JobSink) (t : Terminal) (s : Broker C E)
      → Pays c (holds c sink) s (send_terminal sink t s)
  unfolding send_terminal
  send_terminal-Pays sink t s =
      end-Pays sink (terminal_message sink t) s (terminal_message-IsTerminal E sink t)

  pub close_parked-Pays :
      (id : ℕ) (job : Job C) (t : Terminal) (d : ApprovalDecision) (o : AuditOutcome)
      (s : Broker C E)
      → Pays c (holds c job.sink) s (close_parked id job t d o s)
  unfolding close_parked release record_entry owes is_connected tally
  close_parked-Pays id job t d o s h = send_terminal-Pays job.sink t s h

  send_job-Pays : (job : Job C) (s : Broker C E) → Pays c (holds c job.sink) s (send_job job s).0
  unfolding send_job release owes is_connected tally
  send_job-Pays job s h = ground (arith, queued-append c s.queue job)

  -- A refused session was never entered, and an accepted one only adds to what is held.
  pub submit_with-Pays :
      (sink : ChannelId → JobSink) (compiled : C) (request : CommandRequest) (s : Broker C E)
      → Pays c 0 s (submit_with sink compiled request s).0
  unfolding submit_with check_request new_job enqueue register send_job release owes is_connected
      tally
  submit_with-Pays sink compiled request s h =
      let job = new_job compiled request (sink s.next_channel) in
      ground (arith, queued-append c s.queue job)

  module _ (id : ℕ) (s : Broker C E) where
    taken-Owes :
        (p : PendingJob C)
        → HashMap.get id s.pending ≡ some p
        → keys id s.pending ≤ 1
        → owes c 0 s ≡ true
        → owes c (holds c p.job.sink) (record s { pending = HashMap.remove id s.pending }) ≡ true
    unfolding owes is_connected tally
    taken-Owes p e once h = ground (arith, parked-remove_one c id s.pending p once e)

    module _ (once : keys id s.pending ≤ 1) where
      closed-Pays :
          (p : PendingJob C) (t : Terminal) (d : ApprovalDecision) (o : AuditOutcome)
          → HashMap.get id s.pending ≡ some p
          → Pays c 0 s
              (close_parked id p.job t d o (record s { pending = HashMap.remove id s.pending }))
      closed-Pays p t d o e h =
          close_parked-Pays id p.job t d o (record s { pending = HashMap.remove id s.pending })
            (taken-Owes p e once h)

      pub deny-Pays : Pays c 0 s (deny id s).0
      unfolding deny
      deny-Pays h = elim (Option-cases (HashMap.get id s.pending)) [
        | inl e ↦ rw (e, deny) h
        | inr (p, e) ↦
            rw (e, deny)
              (closed-Pays p Terminal.denied ApprovalDecision.denied AuditOutcome.denied e h)
      ]

      pub expire-Pays : Pays c 0 s (expire id s)
      unfolding expire
      expire-Pays h = elim (Option-cases (HashMap.get id s.pending)) [
        | inl e ↦ rw (e, expire) h
        | inr (p, e) ↦
            rw (e, expire)
              (closed-Pays p Terminal.denied ApprovalDecision.timed_out AuditOutcome.denied e h)
      ]

      cancel_live-Pays : Pays c 0 s (cancel_live id s).0
      unfolding cancel_live owes is_connected tally
      cancel_live-Pays h = ground arith

      pub cancel-Pays : Pays c 0 s (cancel id s).0
      unfolding cancel
      cancel-Pays h = elim (Option-cases (HashMap.get id s.pending)) [
        | inl e ↦ rw (e, cancel) (cancel_live-Pays h)
        | inr (p, e) ↦
            rw (e, cancel)
              (closed-Pays p Terminal.cancelled ApprovalDecision.cancelled AuditOutcome.cancelled e
                h)
      ]

      approve_job-Pays :
          (p : PendingJob C)
          → HashMap.get id s.pending ≡ some p
          → Pays c 0 s (approve_job id p.job (record s { pending = HashMap.remove id s.pending })).0
      unfolding approve_job
      approve_job-Pays p e h =
          let taken = record s { pending = HashMap.remove id s.pending } in
          ground (
            arith,
            taken-Owes p e once h,
            close_parked-Pays id p.job Terminal.cancelled ApprovalDecision.cancelled
                AuditOutcome.cancelled taken,
            send_job-Pays (record p.job { admission = ApprovalDecision.approved }) taken,
          )

      pub approve-Pays : Pays c 0 s (approve id s).0
      unfolding approve
      approve-Pays h = elim (Option-cases (HashMap.get id s.pending)) [
        | inl e ↦ rw (e, approve) h
        | inr (p, e) ↦ rw (e, approve) (approve_job-Pays p e h)
      ]
