-- ===== src/Tests/Brokers.antt =====
-- The broker at concrete inputs.
use ferrous_runtime.Prelude.{
  ◌≡◌, ◌∷◌, ◌⊎◌, Memᴰ, Result, List, ℕ, some, none, true, [], ok, refl, ◌+◌, ◌≤◌, false, ◌++◌,
  if◌then◌else◌, ◌==◌,
}
use ferrous_runtime.HashMap
use ferrous_runtime.Text.{text_eq}
use ferrous_runtime.Cancel
use ferrous_runtime.Command.Session
use ferrous_runtime.SortedSet.{port_order, text_order}
use ferrous_runtime.Broker.State.{
  Terminal, ApprovalDecision, AuditOutcome, AuditEntry, JobSink, Broker, Active, entry_of,
  PendingJob, release, send, is_connected, Job,
}
use ferrous_runtime.Broker.Calls.{
  cancel, initial, deny, approve, submit, submit_with, check_request, new_job, enqueue, register,
  send_job, approve_job, has_cancelled_handle,
}
use ferrous_runtime.Broker.Step.{Action, submits, takes_job, approves, finishes, run, step}
use ferrous_runtime.Command.Request.{CommandRequest, validate, contains_nul, filesystem_write}
use ferrous_runtime.Broker.Bounds.Whole.{IsBounded, run-IsBounded}
use ferrous_runtime.Policy.{classify_risk, Risk}
use ferrous_runtime.Broker.Audit.{push_all, latest, push_all-empty}
use ferrous_runtime.Broker.Worker.{
  take_job, take_from, begin_job, dispatch_risk, start_execution, park, notify_parked,
  start_accepted, announce_start,
}
use ferrous_runtime.Tests.Fixtures.{request_with, writing_grant}
use ferrous_runtime.Runtime.Store.{RuntimeError, WasiOutput}
use ferrous_runtime.Broker.Tally.{terminals, queued, parked, in_runtime}
use ferrous_runtime.Capability.Limits.{default_limits}
use ferrous_runtime.Capability.Grant.{allows_native_execution, allows_path}
use ferrous_runtime.Command.Session.{Lifecycle}
use ferrous_runtime.Broker.Approval.Gate.{approved_ids, runs-approved}
use ferrous_runtime.Broker.Decide.{
  IsClosed, parked-IsClosed, IsParked, approve_queues, take_job-IsParked,
}
use ferrous_runtime.Broker.Sweeper.{expire}
use ferrous_runtime.Broker.Once.{terminals-once}
use ferrous_runtime.Capability.Filesystem.{allows, is_safe_absolute_path}
use ferrous_runtime.FilePath.{is_absolute, starts_with, component_eq}

-- A request that must be approved, since it may write.
abbrev pub risky : CommandRequest
risky = request_with 1 writing_grant

abbrev pub ended_run : Result (RuntimeError ℕ) WasiOutput
ended_run = ok (record { stdout = []; stderr = []; exit_code = 0 })

-- Submitted, parked, approved, run to its end.
abbrev pub life : List (Action ℕ ℕ)
life = submits 9 risky ∷ takes_job 0 ∷ approves 1 ∷ takes_job 5 ∷ finishes ended_run ∷ []

terminals-once_example :
    let s = run life (initial 2 30) in
    terminals 0 s.sent + queued 0 s.queue + parked 0 s.pending + in_runtime 0 s.active ≤ 1
terminals-once_example = terminals-once 2 30 life 0

run-IsBounded_example : IsBounded 2 (run life (initial 2 30))
run-IsBounded_example = run-IsBounded 2 30 life

abbrev to_start : List (Action ℕ ℕ)
to_start = submits 9 risky ∷ takes_job 0 ∷ approves 1 ∷ takes_job 5 ∷ []

abbrev pub started_job : Active ℕ
started_job = record {
  job = record {
    request = risky;
    compiled = 9;
    sink = JobSink.outcome 0;
    session = record {
      id = 1;
      limits = default_limits;
      output_bytes = 0;
      lifecycle = Lifecycle.running;
    };
    admission = ApprovalDecision.approved;
  };
  cancel = 0;
  decision = ApprovalDecision.approved;
}

to_start-active : (run to_start (initial 2 30)).active ≡ some started_job
unfolding run step submit submit_with check_request validate new_job initial enqueue register
    send_job release approve approve_job has_cancelled_handle take_job take_from begin_job
    dispatch_risk start_execution park notify_parked send is_connected classify_risk start_accepted
    announce_start HashMap.insert HashMap.remove HashMap.get Cancel.new Cancel.is_cancelled
    Session.new Session.accept contains_nul allows_path allows is_safe_absolute_path is_absolute
    starts_with component_eq text_eq allows_native_execution
to_start-active = refl

runs-approved_example : (classify_risk risky ≡ Risk.auto_approve) ⊎ Memᴰ 1 (approved_ids to_start)
runs-approved_example = runs-approved 2 30 to_start started_job to_start-active

abbrev entry : AuditEntry
entry = entry_of 1 started_job.job ApprovalDecision.approved AuditOutcome.failed

push_all-empty_example : push_all (entry ∷ entry ∷ []) [] ≡ latest (entry ∷ entry ∷ [])
push_all-empty_example = push_all-empty (entry ∷ entry ∷ [])

abbrev parked_session : PendingJob ℕ
parked_session = record { job = started_job.job; deadline = 30 }

abbrev pub parked_state : Broker ℕ ℕ
parked_state = record (initial 2 30) {
  handles = (1, 0) ∷ [];
  pending = (1, parked_session) ∷ [];
  next_channel = 1;
}

parked_state-found : HashMap.get 1 parked_state.pending ≡ some parked_session
unfolding HashMap.get
parked_state-found = refl

parked-IsClosed_example :
    ((deny 1 parked_state).1 ≡ ok tt)
    × IsClosed 1 started_job.job Terminal.denied ApprovalDecision.denied AuditOutcome.denied
        parked_state
        (deny 1 parked_state).0
    × ((cancel 1 parked_state).1 ≡ ok tt)
    × IsClosed 1 started_job.job Terminal.cancelled ApprovalDecision.cancelled
        AuditOutcome.cancelled parked_state
        (cancel 1 parked_state).0
    × IsClosed 1 started_job.job Terminal.denied ApprovalDecision.timed_out AuditOutcome.denied
        parked_state
        (expire 1 parked_state)
parked-IsClosed_example = parked-IsClosed 1 parked_state parked_session parked_state-found

parked_state-live : has_cancelled_handle 1 parked_state ≡ false
unfolding has_cancelled_handle HashMap.get Cancel.is_cancelled initial
parked_state-live = refl

parked_state-served : parked_state.worker_stopped ≡ false
unfolding initial
parked_state-served = refl

approve_queues_example :
    let s' = (approve 1 parked_state).0 in
    ((approve 1 parked_state).1 ≡ ok tt)
    × (s'.queue
        ≡ parked_state.queue
          ++ record started_job.job { admission = ApprovalDecision.approved } ∷ [])
    × ((k : ℕ)
        → HashMap.get k s'.pending ≡ (if 1 == k then none else HashMap.get k parked_state.pending))
    × (s'.handles ≡ parked_state.handles)
    × (s'.flags ≡ parked_state.flags)
    × (s'.active ≡ parked_state.active)
    × (s'.sent ≡ parked_state.sent)
    × (s'.audit ≡ parked_state.audit)
approve_queues_example =
    approve_queues 1 parked_state parked_session parked_state-found parked_state-live
      parked_state-served

abbrev waiting_job : Job ℕ
waiting_job = record started_job.job { admission = ApprovalDecision.auto_approved }

abbrev waiting_state : Broker ℕ ℕ
waiting_state = record (initial 2 30) {
  handles = (1, 0) ∷ [];
  queue = waiting_job ∷ [];
  next_channel = 1;
}

waiting_state-idle : waiting_state.active ≡ none
unfolding initial
waiting_state-idle = refl

waiting_state-registered : HashMap.get 1 waiting_state.handles ≡ some 0
unfolding HashMap.get
waiting_state-registered = refl

waiting_state-heard : is_connected 0 waiting_state ≡ true
unfolding is_connected initial
waiting_state-heard = refl

risky-writes : classify_risk risky ≡ Risk.requires_approval filesystem_write
unfolding classify_risk allows_native_execution
risky-writes = refl

take_job-IsParked_example :
    IsParked waiting_job filesystem_write 5 [] waiting_state (take_job 5 waiting_state)
take_job-IsParked_example =
    take_job-IsParked waiting_job [] 0 5 filesystem_write waiting_state waiting_state-idle refl
      waiting_state-registered risky-writes refl waiting_state-heard
