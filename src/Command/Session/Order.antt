-- ===== src/Command/Session/Order.antt =====
-- Which sequences of events `SessionState` of crates/wasi-runtime/src/command.rs accepts.
use ferrous_runtime.Prelude.{
  refl, List, ◌≤◌, ◌≢◌, ◌≡◌, Option, ℕ, ok, err, some, ◌∷◌, arith, none, length, [], ◌+◌, Result,
  Bool, is_empty, true, ◌&&◌, false, leb, ◌⊎◌, inr,
}
use ferrous_runtime.Command.Session.{
  started, cancelled, denied, unsupported, pending_approval, output, exited, SessionState,
  SessionEvent, Lifecycle, accept, new, output, exited, started,
}
use ferrous_runtime.Capability.Limits.{u64_max, ResourceLimits}

-- Feeds events to a session while it accepts them; `none` is the first refusal.
unfoldable pub accept_all : SessionState → List SessionEvent → Option SessionState
accept_all s [] = some s
accept_all s (e ∷ events) = elim (accept s e).1 [
  | ok _ ↦ accept_all (accept s e).0 events
  | err _ ↦ none
]

-- The bytes that the output events carry.
unfoldable pub output_size : List SessionEvent → ℕ
output_size [] = 0
output_size (output stream bytes ∷ events) = length bytes + output_size events
output_size (_ ∷ events) = output_size events

-- A session within its budget, which an earlier refusal cannot have changed.
abbrev pub IsWithinBudget : SessionState → Type 0
IsWithinBudget s = s.output_bytes ≤ s.limits.max_output_bytes

abbrev is_ok : {E : Type 0} {A : Type 0} → Result E A → Bool
is_ok (ok a) = true
is_ok (err e) = false

abbrev pub is_some : {A : Type 0} → Option A → Bool
is_some (some a) = true
is_some none = false

-- An event that is refused changes nothing. One that is accepted keeps the id and the limits, and
-- leaves the output within the budget.
pub accept_keeps :
    (s : SessionState) (e : SessionEvent)
    → IsWithinBudget s
    → ((accept s e).1 ≢ ok tt → (accept s e).0 ≡ s)
      × IsWithinBudget (accept s e).0
      × ((accept s e).0.id ≡ s.id)
      × ((accept s e).0.limits ≡ s.limits)
unfolding accept
accept_keeps s e h = ground arith

-- The order that the module promises, written without states: an optional request for approval,
-- then a denial or a start, then chunks of output and one end. A session may stop anywhere.
pub outputs_then_end : List SessionEvent → Bool
outputs_then_end [] = true
outputs_then_end (output stream bytes ∷ events) = outputs_then_end events
outputs_then_end (exited code ∷ events) = is_empty events
outputs_then_end (cancelled ∷ events) = is_empty events
outputs_then_end (_ ∷ events) = false

pub decided : List SessionEvent → Bool
unfolding outputs_then_end
decided [] = true
decided (started ∷ events) = outputs_then_end events
decided (denied ∷ events) = is_empty events
decided (unsupported ∷ events) = is_empty events
decided (_ ∷ events) = false

unfoldable pub is_in_order : List SessionEvent → Bool
unfolding decided
is_in_order (pending_approval reason ∷ events) = decided events
is_in_order events = decided events

finished_accepts :
    (s : SessionState) (events : List SessionEvent)
    → s.lifecycle ≡ Lifecycle.finished
    → is_some (accept_all s events) ≡ is_empty events
unfolding accept_all accept
finished_accepts s [] h = refl
finished_accepts s (e ∷ events) h = ground arith

running_accepts :
    (events : List SessionEvent) (s : SessionState)
    → s.lifecycle ≡ Lifecycle.running
    → IsWithinBudget s
    → s.limits.max_output_bytes ≤ u64_max
    → is_some (accept_all s events) ≡ (
        outputs_then_end events
        && leb (s.output_bytes + output_size events) s.limits.max_output_bytes)
unfolding accept_all accept outputs_then_end output_size
running_accepts [] s h b m = ground arith
running_accepts (output stream bytes ∷ events) s h b m =
    ground
      (arith, running_accepts events (record s { output_bytes = s.output_bytes + length bytes }))
running_accepts (exited code ∷ events) s h b m =
    ground (arith, finished_accepts (record s { lifecycle = Lifecycle.finished }) events)
running_accepts (cancelled ∷ events) s h b m =
    ground (arith, finished_accepts (record s { lifecycle = Lifecycle.finished }) events)
running_accepts (e ∷ events) s h b m = ground arith

abbrev is_pending : List SessionEvent → Bool
is_pending (pending_approval reason ∷ events) = true
is_pending _ = false

decided_accepts :
    (events : List SessionEvent) (s : SessionState)
    → ((s.lifecycle ≡ Lifecycle.created) × (is_pending events ≡ false))
      ⊎ (s.lifecycle ≡ Lifecycle.waiting_approval)
    → s.output_bytes ≡ 0
    → s.limits.max_output_bytes ≤ u64_max
    → is_some (accept_all s events)
      ≡ (decided events && leb (output_size events) s.limits.max_output_bytes)
unfolding accept_all accept decided output_size
decided_accepts [] s l b m = ground arith
decided_accepts (started ∷ events) s l b m =
    ground (arith, running_accepts events (record s { lifecycle = Lifecycle.running }))
decided_accepts (denied ∷ events) s l b m =
    ground (arith, finished_accepts (record s { lifecycle = Lifecycle.finished }) events)
decided_accepts (unsupported ∷ events) s l b m =
    ground (arith, finished_accepts (record s { lifecycle = Lifecycle.finished }) events)
decided_accepts (e ∷ events) s l b m = ground arith

-- A new session accepts a whole sequence of events exactly when the events come in the promised
-- order and their output fits the budget. (The budget is a `usize`.)
pub accept_all-new :
    (id : ℕ) (limits : ResourceLimits) (events : List SessionEvent)
    → limits.max_output_bytes ≤ u64_max
    → is_some (accept_all (new id limits) events)
      ≡ (is_in_order events && leb (output_size events) limits.max_output_bytes)
unfolding accept_all accept is_in_order decided output_size new
accept_all-new id limits (pending_approval reason ∷ events) m =
    decided_accepts events
      (record {
        id = id;
        limits = limits;
        output_bytes = 0;
        lifecycle = Lifecycle.waiting_approval;
      })
      (inr refl) refl m
accept_all-new id limits [] m = ground arith
accept_all-new id limits (e ∷ events) m =
    ground (arith, decided_accepts (e ∷ events) (new id limits))
