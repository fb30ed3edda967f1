-- ===== src/Broker/Capacity/Whole.antt =====
-- The sessions of crates/wasi-runtime/src/broker.rs against its capacity, over whole runs.
use ferrous_runtime.Prelude.{◌≤◌, ◌+◌, ◌∷◌, ◌++◌, [], ℕ, List, Option, none, some}
use ferrous_runtime.HashMap
use ferrous_runtime.Broker.State.{Broker, Job, Active}
use ferrous_runtime.Broker.Step.{Action, step}
use ferrous_runtime.Broker.Accounted.{count, submitted_id, keys}
use ferrous_runtime.Broker.Capacity.{present}

module _ {C E : Type 0} (i : ℕ) where
  -- A step makes no session but the one submitted, and each keeps a handle.
  abbrev StepPlaced : Action C E → Broker C E → Type 0
  StepPlaced a s =
      (present i (step a s) ≤ present i s + count i (submitted_id a))
      × (present i s + count i (submitted_id a) ≤ 1
          → present i s ≤ keys i s.handles
          → present i (step a s) ≤ keys i (step a s).handles)

-- The ids of all sessions.
unfoldable queue_list : {C : Type 0} → List (Job C) → List ℕ
queue_list [] = []
queue_list (job ∷ jobs) = job.request.id ∷ queue_list jobs

unfoldable key_list : {V : Type 0} → List (ℕ × V) → List ℕ
key_list [] = []
key_list ((k, v) ∷ m) = k ∷ key_list m

abbrev active_list : {C : Type 0} → Option (Active C) → List ℕ
active_list none = []
active_list (some a) = a.job.request.id ∷ []

-- How many sessions are in the runtime.
abbrev pub running : {C : Type 0} → Option (Active C) → ℕ
running none = 0
running (some a) = 1

module _ {C E : Type 0} where
  abbrev ids_of : Broker C E → List ℕ
  ids_of s = queue_list s.queue ++ key_list s.pending ++ active_list s.active
