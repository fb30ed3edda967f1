-- ===== src/Broker/Locks.antt =====
-- The methods of crates/wasi-runtime/src/broker.rs, one access to the shared state at a time. Every
-- lock there is taken for one access and dropped, so between two accesses of a thread any other thread
-- may act. A task is the next access of a thread, with the local variables that it and later ones read.
pub mod System
pub mod Tally
pub mod Once
pub mod Approval
pub mod Gate
pub mod Alone
use ferrous_runtime.Prelude.{
  ◌∷◌, ◌+◌, Bool, ℕ, List, ok, [], if◌then◌else◌, err, true, false, leb, length, ◌++◌, none, some,
}
use ferrous_runtime.Cancel
use ferrous_runtime.HashMap
use ferrous_runtime.Command.Session
use ferrous_runtime.Command.Session.{SessionEvent}
use ferrous_runtime.Broker.State.{
  Broker, Job, PendingJob, Active, JobSink, ApprovalDecision, AuditOutcome, AuditEntry, Terminal,
  send_terminal, entry_of, record_entry, release,
}
use ferrous_runtime.Policy.{Risk, classify_risk}
use ferrous_runtime.Broker.Calls.{check_request, register, new_job, has_cancelled_handle}
use ferrous_runtime.Command.Request.{CommandRequest, ApprovalReason, invalid_transition}
use ferrous_runtime.Broker.Worker.{is_approved, announce_start, notify_parked}
use ferrous_runtime.Broker.Sweeper.{Iteration, expired}

-- Why a parked job is taken out.
pub data Purpose : Type 0 where
  to_approve to_deny to_cancel to_expire : Purpose

pub data Task (C : Type 0) : Type 0 where
  open_session : Bool → C → CommandRequest → Task C  -- `submit`, or `submit_streaming`
  queue_send : Job C → Task C
  take_parked : Purpose → ℕ → Task C
  check_cancelled : ℕ → Job C → Task C
  tell : ℕ → Job C → Terminal → ApprovalDecision → AuditOutcome → Task C
  record_end : AuditEntry → Task C
  release_handle : ℕ → Task C
  find_handle : ℕ → Task C
  set_flag : Cancel.CancelHandle → Task C
  collect_expired : Iteration C → Task C
  look_up : Job C → Task C
  tell_orphan : Job C → Task C
  read_flag : Job C → Cancel.CancelHandle → ApprovalDecision → Task C
  announce : Job C → Cancel.CancelHandle → ApprovalDecision → Task C
  park_insert : Job C → ApprovalReason → Task C
  notify : ℕ → JobSink → ApprovalReason → Task C
  unpark : ℕ → Task C

abbrev pub sink_of : Bool → ℕ → JobSink
sink_of true channel = JobSink.events channel
sink_of false channel = JobSink.outcome channel

module _ {C : Type 0} where
  -- What a thread does with the job that it has taken out of the parked ones.
  unfoldable pub found : Purpose → ℕ → Job C → List (Task C)
  found to_approve id job = check_cancelled id job ∷ []
  found to_deny id job =
      tell id job Terminal.denied ApprovalDecision.denied AuditOutcome.denied ∷ []
  found to_cancel id job =
      tell id job Terminal.cancelled ApprovalDecision.cancelled AuditOutcome.cancelled ∷ []
  found to_expire id job =
      tell id job Terminal.denied ApprovalDecision.timed_out AuditOutcome.denied ∷ []

  -- And what it does when there was none.
  unfoldable pub missing : Purpose → ℕ → List (Task C)
  missing to_cancel id = find_handle id ∷ []
  missing _ id = []

  abbrev pub expire_tasks : List ℕ → List (Task C)
  expire_tasks [] = []
  expire_tasks (id ∷ ids) = take_parked to_expire id ∷ expire_tasks ids

  -- The `match` of `process_job` on the risk, which reads nothing shared.
  unfoldable pub after_risk : Risk → Job C → Cancel.CancelHandle → Task C
  after_risk Risk.auto_approve job handle = read_flag job handle job.admission
  after_risk (Risk.requires_approval reason) job handle =
      if is_approved job.admission
      then read_flag job handle ApprovalDecision.approved
      else park_insert job reason

  -- What follows the session's answer to `Started`.
  unfoldable pub after_accept :
      Job C → Cancel.CancelHandle → ApprovalDecision → Session.Accepted → Task C
  after_accept job handle decision (session, ok _) =
      announce (record job { session = session }) handle decision
  after_accept job handle decision (session, err e) =
      tell job.request.id job (Terminal.denied_with (invalid_transition "session cannot start"))
        decision AuditOutcome.denied

module _ {C E : Type 0} where
  -- One access, at a time: the state after it, and what the thread does next.
  unfoldable pub access : ℕ → Task C → Broker C E → Broker C E × List (Task C)
  unfolding check_request register new_job found missing has_cancelled_handle after_risk
      after_accept announce_start notify_parked
  access now (open_session streams compiled request) s = elim (check_request {E = E} request) [
    | err e ↦ (s, [])
    | ok _ ↦
        let opened = record s { next_channel = s.next_channel + 1 } in
        if leb s.capacity (length s.handles) then (opened, []) else (
          register request.id opened,
          queue_send (new_job compiled request (sink_of streams s.next_channel)) ∷ [],
        )
  ]
  access now (queue_send job) s =
      if s.worker_stopped
      then (s, release_handle job.request.id ∷ [])
      else (record s { queue = s.queue ++ job ∷ [] }, [])
  access now (take_parked purpose id) s = elim (HashMap.get id s.pending) [
    | none ↦ (s, missing purpose id)
    | some parked ↦
        (record s { pending = HashMap.remove id s.pending }, found purpose id parked.job)
  ]
  access now (check_cancelled id job) s =
      if has_cancelled_handle id s
      then (
        s,
        tell id job Terminal.cancelled ApprovalDecision.cancelled AuditOutcome.cancelled ∷ [],
      )
      else (s, queue_send (record job { admission = ApprovalDecision.approved }) ∷ [])
  access now (tell id job terminal decision outcome) s = (
    send_terminal job.sink terminal s,
    record_end (entry_of id job decision outcome) ∷ release_handle id ∷ [],
  )
  access now (record_end entry) s = (record_entry entry s, [])
  access now (release_handle id) s = (release id s, [])
  access now (find_handle id) s = elim (HashMap.get id s.handles) [
    | none ↦ (s, [])
    | some handle ↦ (s, set_flag handle ∷ [])
  ]
  access now (set_flag handle) s = (record s { flags = Cancel.cancel handle s.flags }, [])
  access now (collect_expired order) s = (s, expire_tasks (expired now (order s.pending)))
  access now (look_up job) s = elim (HashMap.get job.request.id s.handles) [
    | none ↦ (s, tell_orphan job ∷ [])
    | some handle ↦ (s, after_risk (classify_risk job.request) job handle ∷ [])
  ]
  access now (tell_orphan job) s = (
    send_terminal job.sink
        (Terminal.denied_with (invalid_transition "session handle disappeared before start")) s,
    release_handle job.request.id ∷ [],
  )
  access now (read_flag job handle decision) s =
      if Cancel.is_cancelled handle s.flags
      then (s, tell job.request.id job Terminal.cancelled decision AuditOutcome.cancelled ∷ [])
      else (
        s,
        after_accept job handle decision (Session.accept job.session SessionEvent.started) ∷ [],
      )
  access now (announce job handle decision) s = (
    record (announce_start job.sink s) {
      active = some (record { job = job; cancel = handle; decision = decision });
    },
    [],
  )
  access now (park_insert job reason) s =
      let asked = (Session.accept job.session (SessionEvent.pending_approval reason)).0 in
      let parked : PendingJob C = record {
        job = record job { session = asked };
        deadline = now + s.approval_timeout;
      } in
      (
        record s { pending = HashMap.insert job.request.id parked s.pending },
        notify job.request.id job.sink reason ∷ [],
      )
  access now (notify id sink reason) s =
      let (notified, heard) = notify_parked sink reason s in
      (notified, if heard then [] else unpark id ∷ release_handle id ∷ [])
  access now (unpark id) s = (record s { pending = HashMap.remove id s.pending }, [])
