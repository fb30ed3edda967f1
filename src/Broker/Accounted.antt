-- ===== src/Broker/Accounted.antt =====
-- That no session of crates/wasi-runtime/src/broker.rs is lost: who still owes its receiver an end.
pub mod Ids
pub mod Served
pub mod Calls
pub mod Worker
pub mod Running
pub mod Whole
pub mod Sessions
use ferrous_runtime.Prelude.{
  ◌≡◌, ◌==◌, ◌||◌, ◌+◌, ◌∷◌, ◌++◌, [], ℕ, List, Bool, true, false, not, leb,
}
use ferrous_runtime.Broker.State.{Broker, Job, ChannelId, is_connected}
use ferrous_runtime.Broker.Step.{Action, submits, streams}
use ferrous_runtime.Broker.Tally.{tally, one_if}

unfoldable pub count : ℕ → List ℕ → ℕ
count i [] = 0
count i (j ∷ js) = one_if (j == i) + count i js

abbrev pub submitted_id : {C E : Type 0} → Action C E → List ℕ
submitted_id (submits compiled request) = request.id ∷ []
submitted_id (streams compiled request) = request.id ∷ []
submitted_id _ = []

-- The ids that sessions were submitted under.
abbrev pub submitted_ids : {C E : Type 0} → List (Action C E) → List ℕ
submitted_ids [] = []
submitted_ids (a ∷ actions) = submitted_id a ++ submitted_ids actions

unfoldable pub queue_ids : {C : Type 0} → ℕ → List (Job C) → ℕ
queue_ids i [] = 0
queue_ids i (job ∷ jobs) = one_if (job.request.id == i) + queue_ids i jobs

unfoldable pub keys : {V : Type 0} → ℕ → List (ℕ × V) → ℕ
keys i [] = 0
keys i ((k, v) ∷ m) = one_if (k == i) + keys i m

module _ {C E : Type 0} where
  -- The sessions with an id that wait in the queue or for an approval.
  unfoldable pub waiting : ℕ → Broker C E → ℕ
  waiting i s = queue_ids i s.queue + keys i s.pending

  -- While the receiver is there and the worker runs, the channel has had an end, or someone in the state
  -- or one of `n` others holds it.
  unfoldable pub owes : ChannelId → ℕ → Broker C E → Bool
  owes c n s = not (is_connected c s) || s.worker_stopped || leb 1 (tally c s + n)

  abbrev pub Pays : ChannelId → ℕ → Broker C E → Broker C E → Type 0
  Pays c n s s' = owes c n s ≡ true → owes c 0 s' ≡ true
