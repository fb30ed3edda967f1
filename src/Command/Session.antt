-- ===== src/Command/Session.antt =====
-- `SessionEvent` and `SessionState` of crates/wasi-runtime/src/command.rs.
pub mod Order
use ferrous_runtime.Prelude.{
  ℕ, ◌+◌, List, Option, none, some, Result, ok, err, length, ltb, if◌then◌else◌,
}
use ferrous_runtime.Capability.Limits.{ResourceLimits, u64_max}
use ferrous_runtime.Command.Request.{CommandError, invalid_transition, output_limit, ApprovalReason}

pub data Stream : Type 0 where
  stdout stderr : Stream

-- An exit code is an i32, of which the program makes only 0 and 1.
pub data SessionEvent : Type 0 where
  started cancelled denied unsupported : SessionEvent
  pending_approval : ApprovalReason → SessionEvent
  output : Stream → List ℕ → SessionEvent
  exited : Option ℕ → SessionEvent

pub data Lifecycle : Type 0 where
  created waiting_approval running finished : Lifecycle

pub record SessionState : Type 0 where
  pub id : ℕ  -- u64
  pub limits : ResourceLimits
  pub output_bytes : ℕ  -- usize
  pub lifecycle : Lifecycle

-- `SessionState::new`.
unfoldable pub new : ℕ → ResourceLimits → SessionState
new id limits = record { id = id; limits = limits; output_bytes = 0; lifecycle = created }

-- `usize::checked_add`.
abbrev pub checked_add : ℕ → ℕ → Option ℕ
checked_add a b = if ltb u64_max (a + b) then none else some (a + b)

abbrev pub Accepted : Type 0
Accepted = SessionState × Result CommandError (Unit {0})

-- The arm of a chunk of output in a running session.
accept_output : SessionState → List ℕ → Accepted
accept_output s bytes = elim (checked_add s.output_bytes (length bytes)) [
  | none ↦ (s, err output_limit)
  | some next ↦
      if ltb s.limits.max_output_bytes next
      then (s, err output_limit)
      else (record s { output_bytes = next }, ok tt)
]

-- The `match` of `accept`, in the order of its arms.
dispatch : Lifecycle → SessionEvent → SessionState → Accepted
unfolding accept_output
dispatch created started s = (record s { lifecycle = running }, ok tt)
dispatch created (pending_approval reason) s = (record s { lifecycle = waiting_approval }, ok tt)
dispatch waiting_approval started s = (record s { lifecycle = running }, ok tt)
dispatch waiting_approval denied s = (record s { lifecycle = finished }, ok tt)
dispatch waiting_approval unsupported s = (record s { lifecycle = finished }, ok tt)
dispatch running (output stream bytes) s = accept_output s bytes
dispatch running (exited code) s = (record s { lifecycle = finished }, ok tt)
dispatch running cancelled s = (record s { lifecycle = finished }, ok tt)
dispatch created denied s = (record s { lifecycle = finished }, ok tt)
dispatch created unsupported s = (record s { lifecycle = finished }, ok tt)
dispatch created _ s = (s, err (invalid_transition "session has not started"))
dispatch waiting_approval _ s = (s, err (invalid_transition "session is awaiting approval"))
dispatch running started s = (s, err (invalid_transition "session already started"))
dispatch running (pending_approval reason) s =
    (s, err (invalid_transition "running session cannot await approval"))
dispatch running denied s = (s, err (invalid_transition "running session cannot be denied"))
dispatch running unsupported s = (s, err (invalid_transition "running session cannot be denied"))
dispatch finished _ s = (s, err (invalid_transition "session is finished"))

unfoldable pub accept : SessionState → SessionEvent → Accepted
unfolding dispatch
accept s event = dispatch s.lifecycle event s
