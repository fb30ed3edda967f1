-- ===== src/Broker/Calls.antt =====
-- The methods of `ActionBroker`, crates/wasi-runtime/src/broker.rs. Each call is one step on the
-- shared state; what it returns stands beside the new state.
use ferrous_runtime.Prelude.{
  ◌>>=◌, ◌>>◌, ◌==◌, if◌then◌else◌, Option, ℕ, Result, List, leb, err, Bool, ok, some, ◌++◌, length,
  ◌+◌, [], ◌∷◌, ◌>>=◌, false, none, map_err, reject_if,
}
use ferrous_runtime.Cancel
use ferrous_runtime.HashMap
use ferrous_runtime.Command.Session
use ferrous_runtime.Broker.State.{
  Broker, BrokerError, Job, JobSink, ChannelId, ApprovalDecision, AuditOutcome, AuditEntry,
  Terminal, release, entry_of, record_entry, send_terminal,
}
use ferrous_runtime.Command.Request.{CommandRequest, validate, is_native}
use ferrous_runtime.Runtime.Store.{RuntimeError}

-- The checks that both ways of submitting begin with.
unfoldable pub check_request : {E : Type 0} → CommandRequest → Result (BrokerError E) (Unit {0})
check_request request = do
  map_err BrokerError.invalid_request (validate request)
  reject_if (is_native request.mode) BrokerError.not_wasi
  ok tt

unfoldable pub new_job : {C : Type 0} → C → CommandRequest → JobSink → Job C
new_job compiled request sink = record {
  request = request;
  compiled = compiled;
  sink = sink;
  session = Session.new request.id request.grant.limits;
  admission = ApprovalDecision.auto_approved;
}

module _ {C E : Type 0} where
  -- The state of a new broker.
  unfoldable pub initial : ℕ → ℕ → Broker C E
  initial capacity approval_timeout = record {
    capacity = capacity;
    approval_timeout = approval_timeout;
    handles = [];
    pending = [];
    audit = [];
    flags = Cancel.no_flags;
    queue = [];
    worker_stopped = false;
    active = none;
    next_channel = 0;
    sent = [];
    dropped = [];
  }

  -- `with_config`. Creating the runtime may fail.
  unfoldable pub with_config : Option (RuntimeError E) → ℕ → ℕ → Result (BrokerError E) (Broker C E)
  unfolding initial
  with_config runtime_error capacity approval_timeout =
      if capacity == 0 then err BrokerError.invalid_capacity else elim runtime_error [
        | some e ↦ err (BrokerError.runtime e)
        | none ↦ ok (initial capacity approval_timeout)
      ]

  -- A new handle, registered under the id: an older handle under the same id is replaced.
  unfoldable pub register : ℕ → Broker C E → Broker C E
  register id s =
      let (handle, flags) = Cancel.new s.flags in
      record s { handles = HashMap.insert id handle s.handles; flags = flags }

  -- `queue_tx.send(job)`, and what both callers do when the worker is gone.
  unfoldable pub send_job : Job C → Broker C E → Broker C E × Result (BrokerError E) (Unit {0})
  send_job job s =
      if s.worker_stopped
      then (release job.request.id s, err BrokerError.worker_stopped)
      else (record s { queue = s.queue ++ job ∷ [] }, ok tt)

  unfoldable pub enqueue : Job C → Broker C E → Broker C E × Result (BrokerError E) (Unit {0})
  unfolding register send_job
  enqueue job s =
      if leb s.capacity (length s.handles)
      then (s, err BrokerError.queue_full)
      else send_job job (register job.request.id s)

  -- The common body of `submit` and `submit_streaming`, which differ in the sink. The caller gets the
  -- receiver of a new channel.
  unfoldable pub submit_with :
      (ChannelId → JobSink)
      → C
      → CommandRequest
      → Broker C E
      → Broker C E × Result (BrokerError E) ChannelId
  unfolding check_request enqueue new_job
  submit_with sink compiled request s = elim (check_request request) [
    | err e ↦ (s, err e)
    | ok _ ↦
        let channel = s.next_channel in
        let opened = record s { next_channel = channel + 1 } in
        let (after, result) = enqueue (new_job compiled request (sink channel)) opened in
        (after, result >>= λ _. ok channel)
  ]

  unfoldable pub submit :
      C → CommandRequest → Broker C E → Broker C E × Result (BrokerError E) ChannelId
  unfolding submit_with
  submit = submit_with JobSink.outcome

  unfoldable pub submit_streaming :
      C → CommandRequest → Broker C E → Broker C E × Result (BrokerError E) ChannelId
  unfolding submit_with
  submit_streaming = submit_with JobSink.events

  -- The end of a parked session that never runs: the message, the audit entry, the released handle.
  unfoldable pub close_parked :
      ℕ → Job C → Terminal → ApprovalDecision → AuditOutcome → Broker C E → Broker C E
  close_parked id job terminal decision outcome s =
      release id
        (record_entry (entry_of id job decision outcome) (send_terminal job.sink terminal s))

  -- Whether the handle registered under an id has been cancelled.
  unfoldable pub has_cancelled_handle : ℕ → Broker C E → Bool
  has_cancelled_handle id s = elim (HashMap.get id s.handles) [
    | none ↦ false
    | some handle ↦ Cancel.is_cancelled handle s.flags
  ]

  -- `approve`, once the parked job has been taken out.
  unfoldable pub approve_job :
      ℕ → Job C → Broker C E → Broker C E × Result (BrokerError E) (Unit {0})
  unfolding close_parked has_cancelled_handle send_job
  approve_job id job s =
      if has_cancelled_handle id s
      then (
        close_parked id job Terminal.cancelled ApprovalDecision.cancelled AuditOutcome.cancelled s,
        ok tt,
      )
      else send_job (record job { admission = ApprovalDecision.approved }) s

  unfoldable pub approve : ℕ → Broker C E → Broker C E × Result (BrokerError E) (Unit {0})
  unfolding approve_job
  approve id s = elim (HashMap.get id s.pending) [
    | none ↦ (s, err (BrokerError.not_pending_approval id))
    | some parked ↦ approve_job id parked.job (record s { pending = HashMap.remove id s.pending })
  ]

  unfoldable pub deny : ℕ → Broker C E → Broker C E × Result (BrokerError E) (Unit {0})
  unfolding close_parked
  deny id s = elim (HashMap.get id s.pending) [
    | none ↦ (s, err (BrokerError.not_pending_approval id))
    | some parked ↦ (
      close_parked id parked.job Terminal.denied ApprovalDecision.denied AuditOutcome.denied
          (record s { pending = HashMap.remove id s.pending }),
      ok tt,
    )
  ]

  -- `cancel` of a session that is not parked.
  unfoldable pub cancel_live : ℕ → Broker C E → Broker C E × Result (BrokerError E) (Unit {0})
  cancel_live id s = elim (HashMap.get id s.handles) [
    | none ↦ (s, err (BrokerError.unknown_session id))
    | some handle ↦ (record s { flags = Cancel.cancel handle s.flags }, ok tt)
  ]

  unfoldable pub cancel : ℕ → Broker C E → Broker C E × Result (BrokerError E) (Unit {0})
  unfolding close_parked cancel_live
  cancel id s = elim (HashMap.get id s.pending) [
    | none ↦ cancel_live id s
    | some parked ↦ (
      close_parked id parked.job Terminal.cancelled ApprovalDecision.cancelled
          AuditOutcome.cancelled (record s { pending = HashMap.remove id s.pending }),
      ok tt,
    )
  ]

  unfoldable pub audit_trail : Broker C E → List AuditEntry
  audit_trail s = s.audit
