-- ===== src/Broker/Locks/Approval.antt =====
-- The approval gate between two accesses of crates/wasi-runtime/src/broker.rs.
use ferrous_runtime.Prelude.{
  ◌≡◌, ◌||◌, ◌∷◌, [], ℕ, List, Bool, true, all, arith, refl, Option-cases, inl, inr, all-append, ok,
  err, ap, ◌∙◌,
}
use ferrous_runtime.HashMap
use ferrous_runtime.Command.Session
use ferrous_runtime.Command.Session.{SessionEvent, Accepted}
use ferrous_runtime.Command.Request.{CommandRequest, invalid_transition}
use ferrous_runtime.Policy.{Risk, classify_risk}
use ferrous_runtime.Broker.State.{Broker, Job, ApprovalDecision, Terminal, record_entry, release}
use ferrous_runtime.Broker.Calls.{check_request, register, new_job}
use ferrous_runtime.Broker.Sweeper.{expired}
use ferrous_runtime.Broker.Approval.{is_safe, is_auto, job_ok, parked_ok}
use ferrous_runtime.Broker.Approval.Calls.{send_terminal-is_safe, unparked-KeepsSafe}
use ferrous_runtime.Broker.Approval.Worker.{announce_start-is_safe, notify_parked-is_safe}
use ferrous_runtime.Broker.Locks.{
  Task, Purpose, access, found, missing, expire_tasks, after_risk, after_accept, open_session,
  queue_send, take_parked, check_cancelled, tell, record_end, release_handle, find_handle, set_flag,
  collect_expired, look_up, tell_orphan, read_flag, announce, park_insert, notify, unpark,
  to_expire, to_approve, to_deny, to_cancel,
}

-- What an access may not do unless the id is one that may run.
abbrev pub task_ok : {C : Type 0} → (ℕ → Bool) → Task C → Bool
task_ok may (queue_send job) = job_ok may job
task_ok may (look_up job) = job_ok may job
task_ok may (take_parked to_approve id) = may id
task_ok may (check_cancelled id job) = may job.request.id
task_ok may (read_flag job handle decision) =
    is_auto (classify_risk job.request) || may job.request.id
task_ok may (announce job handle decision) =
    is_auto (classify_risk job.request) || may job.request.id
task_ok may _ = true

expire_tasks_ok :
    (C : Type 0) (may : ℕ → Bool) (ids : List ℕ)
    → all (task_ok {C = C} may) (expire_tasks ids) ≡ true
expire_tasks_ok C may [] = refl
expire_tasks_ok C may (id ∷ ids) = expire_tasks_ok C may ids

missing_ok :
    (C : Type 0) (may : ℕ → Bool) (why : Purpose) (id : ℕ)
    → all (task_ok {C = C} may) (missing why id) ≡ true
unfolding missing
missing_ok C may to_approve id = refl
missing_ok C may to_deny id = refl
missing_ok C may to_cancel id = refl
missing_ok C may to_expire id = refl

found_ok :
    {C : Type 0} (may : ℕ → Bool) (why : Purpose) (id : ℕ) (job : Job C)
    → job.request.id ≡ id
    → task_ok {C = C} may (take_parked why id) ≡ true
    → all (task_ok may) (found why id job) ≡ true
unfolding found
found_ok may to_approve id job own h = let same = ap may own in ground arith
found_ok may to_deny id job own h = refl
found_ok may to_cancel id job own h = refl
found_ok may to_expire id job own h = refl

after_risk_ok :
    {C : Type 0} (may : ℕ → Bool) (risk : Risk) (job : Job C) (handle : ℕ)
    → classify_risk job.request ≡ risk
    → job_ok may job ≡ true
    → task_ok may (after_risk risk job handle) ≡ true
unfolding after_risk
after_risk_ok may Risk.auto_approve job handle e h = ground arith
after_risk_ok may (Risk.requires_approval reason) job handle e h = ground arith

after_accept_ok :
    {C : Type 0} (may : ℕ → Bool) (job : Job C) (handle : ℕ) (d : ApprovalDecision) (a : Accepted)
    → (is_auto (classify_risk job.request) || may job.request.id) ≡ true
    → task_ok may (after_accept job handle d a) ≡ true
unfolding after_accept
after_accept_ok may job handle d (session, ok _) h = h
after_accept_ok may job handle d (session, err e) h = refl

module _ {C E : Type 0} (may : ℕ → Bool) where
  -- The state is safe, and so is all that a thread has still to do.
  abbrev pub SafeWith : Broker C E × List (Task C) → Type 0
  SafeWith (s, tasks) = (is_safe may s ≡ true) × (all (task_ok may) tasks ≡ true)

  open_session-SafeWith :
      (streams : Bool) (compiled : C) (request : CommandRequest) (now : ℕ) (s : Broker C E)
      → is_safe may s ≡ true
      → SafeWith (access now (open_session streams compiled request) s)
  unfolding access check_request register new_job is_safe
  open_session-SafeWith streams compiled request now s k = ground arith

  take_parked-SafeWith :
      (why : Purpose) (id now : ℕ) (s : Broker C E)
      → task_ok {C = C} may (take_parked why id) ≡ true
      → is_safe may s ≡ true
      → SafeWith (access now (take_parked why id) s)
  unfolding access is_safe
  take_parked-SafeWith why id now s h k = elim (Option-cases (HashMap.get id s.pending)) [
    | inl e ↦ rw (e, access) (k, missing_ok C may why id)
    | inr (p, e) ↦
        let own : p.job.request.id ≡ id =
          ground (arith, HashMap.all-get parked_ok id s.pending (ground arith) e) in
        rw (e, access) (unparked-KeepsSafe may id s k, found_ok may why id p.job own h)
  ]

  -- One access of a thread.
  pub access-SafeWith :
      (now : ℕ) (task : Task C) (s : Broker C E)
      → task_ok may task ≡ true
      → is_safe may s ≡ true
      → SafeWith (access now task s)
  unfolding access is_safe record_entry release HashMap.insert
  access-SafeWith now (open_session streams compiled request) s h k =
      open_session-SafeWith streams compiled request now s k
  access-SafeWith now (queue_send job) s h k =
      ground (arith, all-append (job_ok may) s.queue (job ∷ []))
  access-SafeWith now (take_parked why id) s h k = take_parked-SafeWith why id now s h k
  access-SafeWith now (check_cancelled id job) s h k = ground arith
  access-SafeWith now (tell id job terminal decision ended) s h k =
      (send_terminal-is_safe may job.sink terminal s ∙ k, refl)
  access-SafeWith now (record_end entry) s h k = (k, refl)
  access-SafeWith now (release_handle id) s h k = (k, refl)
  access-SafeWith now (find_handle id) s h k = ground arith
  access-SafeWith now (set_flag handle) s h k = (k, refl)
  access-SafeWith now (collect_expired order) s h k =
      (k, expire_tasks_ok C may (expired now (order s.pending)))
  access-SafeWith now (look_up job) s h k =
      ground
        (arith, λ (handle : ℕ). after_risk_ok may (classify_risk job.request) job handle refl h)
  access-SafeWith now (tell_orphan job) s h k = (
    send_terminal-is_safe may job.sink
          (Terminal.denied_with (invalid_transition "session handle disappeared before start")) s
        ∙ k,
    refl,
  )
  access-SafeWith now (read_flag job handle decision) s h k = ground (
    arith,
    after_accept_ok may job handle decision (Session.accept job.session SessionEvent.started) h,
  )
  access-SafeWith now (announce job handle decision) s h k =
      ground (arith, announce_start-is_safe may job.sink s)
  access-SafeWith now (park_insert job reason) s h k =
      ground (arith, HashMap.all-remove parked_ok job.request.id s.pending)
  access-SafeWith now (notify id sink reason) s h k =
      ground (arith, notify_parked-is_safe may sink reason s)
  access-SafeWith now (unpark id) s h k = (unparked-KeepsSafe may id s k, refl)
