-- ===== src/Broker/Locks/Alone/Whole.antt =====
-- Every thread of crates/wasi-runtime/src/broker.rs, run alone.
use ferrous_runtime.Prelude.{◌≡◌, ◌∷◌, [], ℕ, suc, ◌∙◌, refl, false, true, List, ap, append-nil}
use ferrous_runtime.Broker.State.{Broker, Job}
use ferrous_runtime.Broker.Calls.{submit, submit_streaming}
use ferrous_runtime.Broker.Worker.{begin_job}
use ferrous_runtime.Broker.Sweeper.{sweep, expired}
use ferrous_runtime.Broker.Step
use ferrous_runtime.Broker.Step.{Action, step}
use ferrous_runtime.Broker.Locks.{Task, access, look_up, collect_expired, expire_tasks}
use ferrous_runtime.Broker.Locks.System.{
  Call, first_task, submits, streams, approves, denies, cancels, sweeps,
}
use ferrous_runtime.Broker.Locks.Alone.{advance_many, next}
use ferrous_runtime.Broker.Locks.Alone.Calls.{
  fuel_for, approve_alone, deny_alone, cancel_alone, expire_alone,
}
use ferrous_runtime.Broker.Locks.Alone.Submit.{submit_alone}
use ferrous_runtime.Broker.Locks.Alone.Worker.{begin_alone}

-- A thread of a caller or of the sweeper, or the worker with a job.
pub data Thread (C : Type 0) : Type 0 where
  caller : Call C → Thread C
  worker : Job C → Thread C

abbrev pub task_of : {C : Type 0} → Thread C → Task C
task_of (caller call) = first_task call
task_of (worker job) = look_up job

-- The step that stands for a call, at a time.
abbrev pub action_of : {C : Type 0} → (E : Type 0) → ℕ → Call C → Action C E
action_of E now (submits compiled request) = Step.submits compiled request
action_of E now (streams compiled request) = Step.streams compiled request
action_of E now (approves id) = Step.approves id
action_of E now (denies id) = Step.denies id
action_of E now (cancels id) = Step.cancels id
action_of E now (sweeps order) = Step.sweeps order now

module _ {C E : Type 0} where
  -- As many accesses as a thread can need.
  abbrev pub accesses : ℕ → Thread C → Broker C E → ℕ
  accesses now (caller (sweeps order)) s = suc (fuel_for (expired now (order s.pending)) 0)
  accesses now _ s = 5

  abbrev pub at_once : ℕ → Thread C → Broker C E → Broker C E
  at_once now (caller call) s = step (action_of E now call) s
  at_once now (worker job) s = begin_job now job s

  -- A thread that no other interrupts does, access by access, what its method does as one step, and has
  -- then nothing left to do: for each call, each round of the sweeper and each job of the worker up to
  -- the runtime, within five accesses, or one and four for each expired session.
  pub uninterrupted :
      (thread : Thread C) (now : ℕ) (s : Broker C E)
      → advance_many (accesses now thread s) now (task_of thread ∷ []) s
        ≡ (at_once now thread s, [])
  unfolding step submit submit_streaming sweep access
  uninterrupted (caller (submits compiled request)) now s =
      submit_alone now false compiled request s
  uninterrupted (caller (streams compiled request)) now s = submit_alone now true compiled request s
  uninterrupted (caller (approves id)) now s = approve_alone now id s
  uninterrupted (caller (denies id)) now s = deny_alone now id s
  uninterrupted (caller (cancels id)) now s = cancel_alone now id s
  uninterrupted (caller (sweeps order)) now s =
      let fuel = fuel_for (expired now (order s.pending)) 0 in
      let tasks : List (Task C) = expire_tasks (expired now (order s.pending)) in
      next now fuel (collect_expired order) [] s refl
      ∙ ap (λ left. advance_many fuel now left s) (append-nil tasks)
      ∙ expire_alone now (expired now (order s.pending)) 0 s
  uninterrupted (worker job) now s = begin_alone now job s
