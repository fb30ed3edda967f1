-- ===== src/Broker/Stopped/Calls.antt =====
-- A stopped handle under the calls of crates/wasi-runtime/src/broker.rs.
use ferrous_runtime.Prelude.{◌≡◌, ℕ, List, arith, true, Option-cases, inl, ◌∷◌, inr, [], ◌+◌}
use ferrous_runtime.HashMap
use ferrous_runtime.Cancel
use ferrous_runtime.Broker.Calls.{
  cancel, close_parked, send_job, submit_with, check_request, approve_job, approve, deny,
  cancel_live, new_job, enqueue, register,
}
use ferrous_runtime.Broker.State.{
  Terminal, send, send_terminal, Broker, ChannelId, JobSink, release, Job, Message, sink_channel,
  record_entry, ApprovalDecision, terminal_message, AuditOutcome,
}
use ferrous_runtime.Broker.Stopped.{is_stopped, KeepsStopped}
use ferrous_runtime.Broker.Sweeper.{expire, expire_all, cancel_all, shut_down}
use ferrous_runtime.Command.Request.{CommandRequest}

module _ {C E : Type 0} (handle : Cancel.CancelHandle) where
  pub send-is_stopped :
      (d : ChannelId) (m : Message E) (s : Broker C E)
      → is_stopped handle (send d m s).0 ≡ is_stopped handle s
  unfolding send is_stopped
  send-is_stopped d m s = ground arith

  pub send_terminal-is_stopped :
      (sink : JobSink) (t : Terminal) (s : Broker C E)
      → is_stopped handle (send_terminal sink t s) ≡ is_stopped handle s
  unfolding send_terminal
  send_terminal-is_stopped sink t s =
      send-is_stopped (sink_channel sink) (terminal_message sink t) s

  pub close_parked-is_stopped :
      (id : ℕ) (job : Job C) (t : Terminal) (d : ApprovalDecision) (o : AuditOutcome)
      (s : Broker C E)
      → is_stopped handle (close_parked id job t d o s) ≡ is_stopped handle s
  unfolding close_parked release record_entry is_stopped
  close_parked-is_stopped id job t d o s = send_terminal-is_stopped job.sink t s

  pub send_job-is_stopped :
      (job : Job C) (s : Broker C E) → is_stopped handle (send_job job s).0 ≡ is_stopped handle s
  unfolding send_job release is_stopped
  send_job-is_stopped job s = ground arith

  pub submit_with-KeepsStopped :
      (sink : ChannelId → JobSink) (compiled : C) (request : CommandRequest) (s : Broker C E)
      → KeepsStopped handle s (submit_with sink compiled request s).0
  unfolding submit_with check_request new_job enqueue register is_stopped Cancel.new
      Cancel.is_cancelled
  submit_with-KeepsStopped sink compiled request s k =
      let opened = record s { next_channel = s.next_channel + 1 } in
      ground (
        arith,
        send_job-is_stopped (new_job compiled request (sink s.next_channel))
            (register request.id opened),
      )

  module _ (id : ℕ) (s : Broker C E) where
    pub closed-is_stopped :
        (job : Job C) (t : Terminal) (d : ApprovalDecision) (o : AuditOutcome)
        → is_stopped handle
            (close_parked id job t d o (record s { pending = HashMap.remove id s.pending }))
          ≡ is_stopped handle s
    unfolding is_stopped
    closed-is_stopped job t d o =
        close_parked-is_stopped id job t d o (record s { pending = HashMap.remove id s.pending })

    pub approve_job-is_stopped :
        (job : Job C) → is_stopped handle (approve_job id job s).0 ≡ is_stopped handle s
    unfolding approve_job
    approve_job-is_stopped job = ground (
      arith,
      close_parked-is_stopped id job Terminal.cancelled ApprovalDecision.cancelled
          AuditOutcome.cancelled s,
      send_job-is_stopped (record job { admission = ApprovalDecision.approved }) s,
    )

  module _ (id : ℕ) (s : Broker C E) where
    pub approve-KeepsStopped : KeepsStopped handle s (approve id s).0
    unfolding approve is_stopped
    approve-KeepsStopped k = elim (Option-cases (HashMap.get id s.pending)) [
      | inl e ↦ rw (e, approve) k
      | inr (p, e) ↦
          rw (e, approve)
            (ground (
              arith,
              k,
              approve_job-is_stopped id (record s { pending = HashMap.remove id s.pending }) p.job,
            ))
    ]

    pub deny-KeepsStopped : KeepsStopped handle s (deny id s).0
    unfolding deny
    deny-KeepsStopped k = elim (Option-cases (HashMap.get id s.pending)) [
      | inl e ↦ rw (e, deny) k
      | inr (p, e) ↦
          rw (e, deny)
            (ground (
              arith,
              k,
              closed-is_stopped id s p.job Terminal.denied ApprovalDecision.denied
                  AuditOutcome.denied,
            ))
    ]

    pub cancel-KeepsStopped : KeepsStopped handle s (cancel id s).0
    unfolding cancel cancel_live is_stopped Cancel.cancel Cancel.is_cancelled
    cancel-KeepsStopped k = elim (Option-cases (HashMap.get id s.pending)) [
      | inl e ↦ rw (e, cancel) (ground arith)
      | inr (p, e) ↦
          rw (e, cancel)
            (ground (
              arith,
              k,
              closed-is_stopped id s p.job Terminal.cancelled ApprovalDecision.cancelled
                  AuditOutcome.cancelled,
            ))
    ]

    pub expire-KeepsStopped : KeepsStopped handle s (expire id s)
    unfolding expire
    expire-KeepsStopped k = elim (Option-cases (HashMap.get id s.pending)) [
      | inl e ↦ rw (e, expire) k
      | inr (p, e) ↦
          rw (e, expire)
            (ground (
              arith,
              k,
              closed-is_stopped id s p.job Terminal.denied ApprovalDecision.timed_out
                  AuditOutcome.denied,
            ))
    ]

  pub expire_all-KeepsStopped :
      (ids : List ℕ) (s : Broker C E) → KeepsStopped handle s (expire_all ids s)
  unfolding expire_all
  expire_all-KeepsStopped [] s k = k
  expire_all-KeepsStopped (id ∷ ids) s k =
      expire_all-KeepsStopped ids (expire id s) (expire-KeepsStopped id s k)

cancel_all-set :
    (handle : Cancel.CancelHandle) (handles : List (ℕ × Cancel.CancelHandle)) (flags : Cancel.Flags)
    → Cancel.is_cancelled handle flags ≡ true
    → Cancel.is_cancelled handle (cancel_all handles flags) ≡ true
unfolding cancel_all Cancel.cancel Cancel.is_cancelled
cancel_all-set handle [] flags h = h
cancel_all-set handle ((id, other) ∷ handles) flags h =
    cancel_all-set handle handles (Cancel.cancel other flags) (ground arith)

module _ {C E : Type 0} (handle : Cancel.CancelHandle) where
  pub shut_down-KeepsStopped : (s : Broker C E) → KeepsStopped handle s (shut_down s)
  unfolding shut_down is_stopped
  shut_down-KeepsStopped s k = ground (arith, cancel_all-set handle s.handles s.flags)
