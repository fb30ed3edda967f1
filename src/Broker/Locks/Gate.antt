-- ===== src/Broker/Locks/Gate.antt =====
-- The approval gate of crates/wasi-runtime/src/broker.rs over all interleavings of accesses.
use ferrous_runtime.Prelude.{
  ◌≡◌, ◌⊎◌, ◌∷◌, ◌++◌, [], ℕ, List, Option, Bool, some, none, zero, suc, true, all, arith, refl,
  sym, ◌∙◌, all-append, subst, Memᴰ, Result,
}
use ferrous_runtime.Policy.{Risk, classify_risk}
use ferrous_runtime.Broker.State.{Broker, Job, Active, Terminal, sink_channel}
use ferrous_runtime.Broker.Approval.{is_safe, job_ok, active_ok, KeepsSafe}
use ferrous_runtime.Broker.Approval.Calls.{send-is_safe, send_terminal-is_safe}
use ferrous_runtime.Broker.Approval.Worker.{stream_to-KeepsSafe}
use ferrous_runtime.Broker.Approval.Gate.{one_of, one_of_self, initial-is_safe, active_ok-approved}
use ferrous_runtime.Broker.Worker.{stream_output, final_message}
use ferrous_runtime.Broker.Sweeper.{shut_down}
use ferrous_runtime.Broker.Step.{stop_worker, drop_receiver}
use ferrous_runtime.Broker.Locks.{Task, access}
use ferrous_runtime.Broker.Locks.System.{
  System, Move, Call, move, moves, fresh, advance, advance_nth, receive, work, return_active,
  panic_in_runtime, first_task, calls, advances, works, outputs, finishes, panics, shuts_down,
  stops_worker, drops_receiver, submits, streams, approves, denies, cancels, sweeps,
}
use ferrous_runtime.Broker.Locks.Approval.{task_ok, SafeWith, access-SafeWith}
use ferrous_runtime.Runtime.Store.{RuntimeError, WasiOutput}
use ferrous_runtime.Command.Request.{invalid_transition}

-- The ids that a move calls `approve` with.
abbrev pub asked_id : {C E : Type 0} → Move C E → List ℕ
asked_id (calls (approves id)) = id ∷ []
asked_id _ = []

abbrev pub asked_ids : {C E : Type 0} → List (Move C E) → List ℕ
asked_ids [] = []
asked_ids (m ∷ ms) = asked_id m ++ asked_ids ms

abbrev all_ok : {C : Type 0} → (ℕ → Bool) → List (List (Task C)) → Bool
all_ok may threads = all (λ tasks. all (task_ok may) tasks) threads

first_task_ok :
    (C E : Type 0) (may : ℕ → Bool) (call : Call C)
    → all may (asked_id {C = C} {E = E} (calls call)) ≡ true
    → task_ok may (first_task call) ≡ true
first_task_ok C E may (submits compiled request) h = refl
first_task_ok C E may (streams compiled request) h = refl
first_task_ok C E may (approves id) h = ground arith
first_task_ok C E may (denies id) h = refl
first_task_ok C E may (cancels id) h = refl
first_task_ok C E may (sweeps order) h = refl

module _ {C E : Type 0} (may : ℕ → Bool) where
  abbrev IsSafe : System C E → Type 0
  IsSafe y =
      (is_safe may y.shared ≡ true)
      × (all (task_ok may) y.worker ≡ true)
      × (all_ok may y.threads ≡ true)

  advance-SafeWith :
      (now : ℕ) (tasks : List (Task C)) (s : Broker C E)
      → all (task_ok may) tasks ≡ true
      → is_safe may s ≡ true
      → SafeWith may (advance now tasks s)
  unfolding advance
  advance-SafeWith now [] s h k = (k, refl)
  advance-SafeWith now (task ∷ tasks) s h k =
      let (safe, more_ok) = access-SafeWith may now task s (ground arith) k in
      (safe, ground (arith, all-append (task_ok may) (access now task s).1 tasks))

  advance_nth-IsSafe :
      (now i : ℕ) (threads : List (List (Task C))) (s : Broker C E)
      → all_ok may threads ≡ true
      → is_safe may s ≡ true
      → let (s', threads') = advance_nth now i threads s in
        (is_safe may s' ≡ true) × (all_ok may threads' ≡ true)
  unfolding advance_nth
  advance_nth-IsSafe now i [] s h k = (k, refl)
  advance_nth-IsSafe now zero (tasks ∷ rest) s h k =
      let (safe, more_ok) = advance-SafeWith now tasks s (ground arith) k in (safe, ground arith)
  advance_nth-IsSafe now (suc i) (tasks ∷ rest) s h k =
      let (safe, more_ok) = advance_nth-IsSafe now i rest s (ground arith) k in (safe, ground arith)

  receive-SafeWith :
      (o : Option (Active C)) (jobs : List (Job C)) (s : Broker C E)
      → s.queue ≡ jobs
      → is_safe may s ≡ true
      → SafeWith may (receive o jobs s)
  unfolding receive is_safe
  receive-SafeWith none (job ∷ rest) s e k =
      let jobs_ok : all (job_ok may) (job ∷ rest) ≡ true =
        subst (λ q. all (job_ok may) q ≡ true) e (ground arith) in
      (ground arith, ground arith)
  receive-SafeWith none [] s e k = (k, refl)
  receive-SafeWith (some a) jobs s e k = (k, refl)

  work-SafeWith :
      (now : ℕ) (tasks : List (Task C)) (s : Broker C E)
      → all (task_ok may) tasks ≡ true
      → is_safe may s ≡ true
      → SafeWith may (work now tasks s)
  unfolding work
  work-SafeWith now [] s h k = receive-SafeWith s.active s.queue s refl k
  work-SafeWith now (task ∷ tasks) s h k = advance-SafeWith now (task ∷ tasks) s h k

  left_is_safe : (s : Broker C E) → KeepsSafe may s (record s { active = none })
  unfolding is_safe
  left_is_safe s k = ground arith

  return_active-SafeWith :
      (r : Result (RuntimeError E) WasiOutput) (o : Option (Active C)) (tasks : List (Task C))
      (s : Broker C E)
      → all (task_ok may) tasks ≡ true
      → is_safe may s ≡ true
      → SafeWith may (return_active r o tasks s)
  unfolding return_active
  return_active-SafeWith r none tasks s h k = (k, h)
  return_active-SafeWith r (some a) tasks s h k = (
    send-is_safe may (sink_channel a.job.sink) (final_message a.job.sink r)
          (record s { active = none })
        ∙ left_is_safe s k,
    h,
  )

  panic_in_runtime-SafeWith :
      (o : Option (Active C)) (tasks : List (Task C)) (s : Broker C E)
      → all (task_ok may) tasks ≡ true
      → is_safe may s ≡ true
      → SafeWith may (panic_in_runtime o tasks s)
  unfolding panic_in_runtime
  panic_in_runtime-SafeWith none tasks s h k = (k, h)
  panic_in_runtime-SafeWith (some a) tasks s h k = (
    send_terminal-is_safe may a.job.sink
          (Terminal.denied_with (invalid_transition "worker panic while executing session"))
          (record s { active = none })
        ∙ left_is_safe s k,
    h,
  )

  move-IsSafe :
      (m : Move C E) (y : System C E) → all may (asked_id m) ≡ true → IsSafe y → IsSafe (move m y)
  unfolding move stream_output shut_down stop_worker drop_receiver is_safe
  move-IsSafe (calls call) y h (k, w, t) = (k, w, ground (arith, first_task_ok C E may call h))
  move-IsSafe (advances now i) y h (k, w, t) =
      let (safe, threads_ok) = advance_nth-IsSafe now i y.threads y.shared t k in
      (safe, w, threads_ok)
  move-IsSafe (works now) y h (k, w, t) =
      let (safe, tasks_ok) = work-SafeWith now y.worker y.shared w k in (safe, tasks_ok, t)
  move-IsSafe (outputs stream bytes) y h (k, w, t) =
      (stream_to-KeepsSafe may y.shared.active stream bytes y.shared k, w, t)
  move-IsSafe (finishes r) y h (k, w, t) =
      let (safe, tasks_ok) = return_active-SafeWith r y.shared.active y.worker y.shared w k in
      (safe, tasks_ok, t)
  move-IsSafe panics y h (k, w, t) =
      let (safe, tasks_ok) = panic_in_runtime-SafeWith y.shared.active y.worker y.shared w k in
      (safe, tasks_ok, t)
  move-IsSafe shuts_down y h (k, w, t) = (k, w, t)
  move-IsSafe stops_worker y h (k, w, t) = (ground arith, refl, t)
  move-IsSafe (drops_receiver d) y h (k, w, t) = (k, w, t)

  moves-IsSafe :
      (ms : List (Move C E)) (y : System C E)
      → all may (asked_ids ms) ≡ true
      → IsSafe y
      → IsSafe (moves ms y)
  unfolding moves
  moves-IsSafe [] y h k = k
  moves-IsSafe (m ∷ ms) y h k =
      let both = sym (all-append may (asked_id m) (asked_ids ms)) ∙ h in
      moves-IsSafe ms (move m y) (ground arith) (move-IsSafe m y (ground arith) k)

module _ {C E : Type 0} where
  -- From a new broker, in whatever order the threads of the callers, the sweeper and the worker make
  -- their accesses: while a job is in the runtime, its request opens nothing that needs approval, or
  -- `approve` was called with its id before.
  pub interleaved_approved :
      (capacity timeout : ℕ) (ms : List (Move C E)) (a : Active C)
      → (moves ms (fresh capacity timeout)).shared.active ≡ some a
      → (classify_risk a.job.request ≡ Risk.auto_approve) ⊎ Memᴰ a.job.request.id (asked_ids ms)
  unfolding is_safe fresh
  interleaved_approved capacity timeout ms a e =
      let ids = asked_ids ms in
      let (safe, _, _) =
        moves-IsSafe (one_of ids) ms (fresh capacity timeout) (one_of_self ids)
          (initial-is_safe C E (one_of ids) capacity timeout, refl, refl) in
      active_ok-approved ids a (subst (λ o. active_ok (one_of ids) o ≡ true) e (ground arith))
