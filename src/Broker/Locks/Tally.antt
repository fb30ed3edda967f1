-- ===== src/Broker/Locks/Tally.antt =====
-- The tally of a channel between two accesses of crates/wasi-runtime/src/broker.rs: a thread may hold a
-- job in its local variables, which the shared state then lacks.
use ferrous_runtime.Prelude.{
  ◌≤◌, ◌≡◌, ◌+◌, ◌∷◌, ◌++◌, [], ℕ, List, arith, ltb, Option-cases, inl, inr, refl, Bool, true,
  false, ok, err,
}
use ferrous_runtime.HashMap
use ferrous_runtime.Command.Session
use ferrous_runtime.Command.Session.{SessionEvent, Accepted}
use ferrous_runtime.Command.Request.{CommandRequest, invalid_transition}
use ferrous_runtime.Policy.{Risk, classify_risk}
use ferrous_runtime.Broker.State.{
  Broker, Job, ChannelId, ApprovalDecision, Terminal, PendingJob, record_entry, release,
}
use ferrous_runtime.Broker.Calls.{check_request, register, new_job}
use ferrous_runtime.Broker.Sweeper.{expired}
use ferrous_runtime.Broker.Tally.{
  tally, holds, one_if, queued-append, parked-insert-le, parked-remove-le,
}
use ferrous_runtime.Broker.Tally.Calls.{send_terminal-Within, unparked}
use ferrous_runtime.Broker.Tally.Worker.{announce_start-Within, notify_parked-Within}
use ferrous_runtime.Broker.Locks.{
  Task, Purpose, access, found, missing, expire_tasks, after_risk, after_accept, open_session,
  queue_send, take_parked, check_cancelled, tell, record_end, release_handle, find_handle, set_flag,
  collect_expired, look_up, tell_orphan, read_flag, announce, park_insert, notify, unpark,
  to_expire, to_approve, to_deny, to_cancel,
}

-- Whether the thread can still answer on the channel.
abbrev pub holding : {C : Type 0} → ChannelId → Task C → ℕ
holding c (queue_send job) = holds c job.sink
holding c (check_cancelled id job) = holds c job.sink
holding c (tell id job terminal decision ended) = holds c job.sink
holding c (look_up job) = holds c job.sink
holding c (tell_orphan job) = holds c job.sink
holding c (read_flag job handle decision) = holds c job.sink
holding c (announce job handle decision) = holds c job.sink
holding c (park_insert job reason) = holds c job.sink
holding c _ = 0

unfoldable pub held : {C : Type 0} → ChannelId → List (Task C) → ℕ
held c [] = 0
held c (task ∷ tasks) = holding c task + held c tasks

pub held-append :
    {C : Type 0} (c : ChannelId) (more tasks : List (Task C))
    → held c (more ++ tasks) ≡ held c more + held c tasks
unfolding held
held-append c [] tasks = omega arith
held-append c (task ∷ more) tasks = omega (arith, held-append c more tasks)

held-expire_tasks :
    (C : Type 0) (c : ChannelId) (ids : List ℕ) → held {C = C} c (expire_tasks ids) ≡ 0
unfolding held
held-expire_tasks C c [] = refl
held-expire_tasks C c (id ∷ ids) = omega (arith, held-expire_tasks C c ids)

held-found :
    {C : Type 0} (c : ChannelId) (why : Purpose) (id : ℕ) (job : Job C)
    → held c (found why id job) ≡ holds c job.sink
unfolding held found
held-found c to_approve id job = omega arith
held-found c to_deny id job = omega arith
held-found c to_cancel id job = omega arith
held-found c to_expire id job = omega arith

held-missing :
    (C : Type 0) (c : ChannelId) (why : Purpose) (id : ℕ) → held {C = C} c (missing why id) ≡ 0
unfolding held missing
held-missing C c to_approve id = refl
held-missing C c to_deny id = refl
held-missing C c to_cancel id = refl
held-missing C c to_expire id = refl

holding-after_risk :
    {C : Type 0} (c : ChannelId) (risk : Risk) (job : Job C) (handle : ℕ)
    → holding c (after_risk risk job handle) ≡ holds c job.sink
unfolding after_risk
holding-after_risk c Risk.auto_approve job handle = refl
holding-after_risk c (Risk.requires_approval reason) job handle = ground arith

holding-after_accept :
    {C : Type 0} (c : ChannelId) (job : Job C) (handle : ℕ) (d : ApprovalDecision) (a : Accepted)
    → holding c (after_accept job handle d a) ≡ holds c job.sink
unfolding after_accept
holding-after_accept c job handle d (session, ok _) = refl
holding-after_accept c job handle d (session, err e) = refl

-- From a state and `before` jobs in local variables to a state and `after` ones: no more is held than
-- before, but for the channels that were opened.
abbrev pub Kept : {C E : Type 0} → ChannelId → ℕ → Broker C E → ℕ → Broker C E → Type 0
Kept c before s after s' =
    tally c s' + after + one_if (ltb c s.next_channel)
    ≤ tally c s + before + one_if (ltb c s'.next_channel)

module _ {C E : Type 0} (c : ChannelId) where
  open_session-Kept :
      (streams : Bool) (compiled : C) (request : CommandRequest) (now : ℕ) (s : Broker C E)
      → let (s', more) = access now (open_session streams compiled request) s in
        Kept c 0 s (held c more) s'
  unfolding access check_request register new_job held tally
  open_session-Kept true compiled request now s = ground arith
  open_session-Kept false compiled request now s = ground arith

  take_parked-Kept :
      (why : Purpose) (id now : ℕ) (s : Broker C E)
      → let (s', more) = access now (take_parked why id) s in Kept c 0 s (held c more) s'
  unfolding access
  take_parked-Kept why id now s = elim (Option-cases (HashMap.get id s.pending)) [
    | inl e ↦ rw (e, access) (omega (arith, held-missing C c why id))
    | inr (p, e) ↦ rw (e, access) (omega (arith, held-found c why id p.job, unparked c id s p e))
  ]

  -- One access of a thread.
  pub access-Kept :
      (now : ℕ) (task : Task C) (s : Broker C E)
      → let (s', more) = access now task s in Kept c (holding c task) s (held c more) s'
  unfolding access held tally record_entry release
  access-Kept now (open_session streams compiled request) s =
      open_session-Kept streams compiled request now s
  access-Kept now (queue_send job) s = ground (arith, queued-append c s.queue job)
  access-Kept now (take_parked why id) s = take_parked-Kept why id now s
  access-Kept now (check_cancelled id job) s = ground arith
  access-Kept now (tell id job terminal decision ended) s =
      let (less, same) = send_terminal-Within c job.sink terminal s in ground arith
  access-Kept now (record_end entry) s = omega arith
  access-Kept now (release_handle id) s = omega arith
  access-Kept now (find_handle id) s = ground arith
  access-Kept now (set_flag handle) s = omega arith
  access-Kept now (collect_expired order) s =
      omega (arith, held-expire_tasks C c (expired now (order s.pending)))
  access-Kept now (look_up job) s =
      ground (arith, holding-after_risk c (classify_risk job.request) job)
  access-Kept now (tell_orphan job) s =
      let (less, same) =
        send_terminal-Within c job.sink
          (Terminal.denied_with (invalid_transition "session handle disappeared before start")) s in
      ground arith
  access-Kept now (read_flag job handle decision) s = ground (
    arith,
    holding-after_accept c job handle decision (Session.accept job.session SessionEvent.started),
  )
  access-Kept now (announce job handle decision) s =
      let (less, same) = announce_start-Within c job.sink s in ground arith
  access-Kept now (park_insert job reason) s =
      let asked = (Session.accept job.session (SessionEvent.pending_approval reason)).0 in
      let parked_job : PendingJob C = record {
        job = record job { session = asked };
        deadline = now + s.approval_timeout;
      } in
      omega (arith, parked-insert-le c job.request.id parked_job s.pending)
  access-Kept now (notify id sink reason) s = ground (arith, notify_parked-Within c sink reason s)
  access-Kept now (unpark id) s = omega (arith, parked-remove-le c id s.pending)
