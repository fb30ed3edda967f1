-- ===== src/Broker/Approval.antt =====
-- The invariant of the approval gate of crates/wasi-runtime/src/broker.rs.
pub mod Calls
pub mod Worker
pub mod Gate
use ferrous_runtime.Prelude.{
  ◌≡◌, ◌==◌, ℕ, Bool, true, Option, false, not, all, some, ◌&&◌, ◌||◌, none,
}
use ferrous_runtime.HashMap
use ferrous_runtime.Policy.{Risk, classify_risk}
use ferrous_runtime.Broker.State.{Job, PendingJob, Broker, Active}
use ferrous_runtime.Broker.Worker.{is_approved}

abbrev pub is_auto : Risk → Bool
is_auto Risk.auto_approve = true
is_auto (Risk.requires_approval reason) = false

-- A job that counts as approved has an id that may run.
abbrev pub job_ok : {C : Type 0} → (ℕ → Bool) → Job C → Bool
job_ok may job = not (is_approved job.admission) || may job.request.id

-- A session is parked under its own id.
abbrev pub parked_ok : {C : Type 0} → ℕ × PendingJob C → Bool
parked_ok (id, parked) = parked.job.request.id == id

-- A job in the runtime needs no approval, or has an id that may run.
abbrev pub active_ok : {C : Type 0} → (ℕ → Bool) → Option (Active C) → Bool
active_ok may none = true
active_ok may (some a) = is_auto (classify_risk a.job.request) || may a.job.request.id

module _ {C E : Type 0} (may : ℕ → Bool) where
  unfoldable pub is_safe : Broker C E → Bool
  is_safe s = all (job_ok may) s.queue && all parked_ok s.pending && active_ok may s.active

  -- The step keeps the state safe.
  abbrev pub KeepsSafe : Broker C E → Broker C E → Type 0
  KeepsSafe s s' = is_safe s ≡ true → is_safe s' ≡ true
