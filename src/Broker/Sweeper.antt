-- ===== src/Broker/Sweeper.antt =====
-- The sweeper thread and the drop of the broker, crates/wasi-runtime/src/broker.rs.
use ferrous_runtime.Cancel
use ferrous_runtime.HashMap
use ferrous_runtime.Broker.State.{Broker, PendingJob, ApprovalDecision, AuditOutcome, Terminal}
use ferrous_runtime.Prelude.{ℕ, List, ◌∷◌, if◌then◌else◌, [], leb, none, some}
use ferrous_runtime.Broker.Calls.{close_parked}

-- In which order `pending.iter()` visits the entries of the map, which the standard library leaves
-- open. Every theorem holds for every order.
abbrev pub Iteration : Type 0 → Type 0
Iteration C = List (ℕ × PendingJob C) → List (ℕ × PendingJob C)

-- The ids of the parked sessions whose deadline has passed, as the map is iterated.
unfoldable pub expired : {C : Type 0} → ℕ → List (ℕ × PendingJob C) → List ℕ
expired now [] = []
expired now ((id, parked) ∷ rest) =
    let others = expired now rest in if leb parked.deadline now then id ∷ others else others

-- `handle.cancel()` for every registered handle.
unfoldable pub cancel_all : List (ℕ × Cancel.CancelHandle) → Cancel.Flags → Cancel.Flags
cancel_all [] flags = flags
cancel_all ((id, handle) ∷ rest) flags = cancel_all rest (Cancel.cancel handle flags)

module _ {C E : Type 0} where
  -- The body of the loop over the expired ids: the session may have been decided on since.
  unfoldable pub expire : ℕ → Broker C E → Broker C E
  expire id s = elim (HashMap.get id s.pending) [
    | none ↦ s
    | some parked ↦
        close_parked id parked.job Terminal.denied ApprovalDecision.timed_out AuditOutcome.denied
          (record s { pending = HashMap.remove id s.pending })
  ]

  unfoldable pub expire_all : List ℕ → Broker C E → Broker C E
  unfolding expire
  expire_all [] s = s
  expire_all (id ∷ ids) s = expire_all ids (expire id s)

  -- One round of `sweeper_loop`, with the order of its iteration, at a time.
  unfoldable pub sweep : Iteration C → ℕ → Broker C E → Broker C E
  unfolding expire_all
  sweep order now s = expire_all (expired now (order s.pending)) s

  -- `Drop`, as far as it touches the shared state: the worker still empties the queue.
  unfoldable pub shut_down : Broker C E → Broker C E
  unfolding cancel_all
  shut_down s = record s { flags = cancel_all s.handles s.flags }
