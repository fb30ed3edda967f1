-- ===== src/Broker/Stopped.antt =====
-- What a cancelled handle prevents in crates/wasi-runtime/src/broker.rs: its job enters the runtime no more.
pub mod Calls
pub mod Worker
pub mod Whole
use ferrous_runtime.Prelude.{◌≡◌, ◌==◌, ◌&&◌, Bool, true, not, Option, none, some}
use ferrous_runtime.Cancel
use ferrous_runtime.Broker.State.{Broker, Active}

-- The job in the runtime, if any, has another handle.
abbrev pub runs_other : {C : Type 0} → Cancel.CancelHandle → Option (Active C) → Bool
runs_other handle none = true
runs_other handle (some a) = not (a.cancel == handle)

module _ {C E : Type 0} (handle : Cancel.CancelHandle) where
  -- The flag of the handle is set, and its job is not in the runtime.
  unfoldable pub is_stopped : Broker C E → Bool
  is_stopped s = Cancel.is_cancelled handle s.flags && runs_other handle s.active

  abbrev pub KeepsStopped : Broker C E → Broker C E → Type 0
  KeepsStopped s s' = is_stopped s ≡ true → is_stopped s' ≡ true
