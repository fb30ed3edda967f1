-- ===== src/Runtime/Watchdog.antt =====
-- The watchdog thread of `run_wasi_inner`, crates/wasi-runtime/src/lib.rs.
pub mod Deadline
use ferrous_runtime.Prelude.{ℕ, ◌+◌, Bool, true, List, [], ◌∷◌, leb, if◌then◌else◌}

-- What `recv_timeout` on the stop channel answers.
pub data Received : Type 0 where
  stop disconnected timeout : Received

-- What one round of the loop sees: whether the session has been cancelled, and, if the round comes
-- so far, the answer of the stop channel.
abbrev pub Round : Type 0
Round = Bool × Received

pub record Watch : Type 0 where
  pub ticks : ℕ
  pub epoch : ℕ
  pub returned : Bool

-- `for _ in 0..n { engine.increment_epoch() }`.
abbrev pub burst : ℕ → ℕ → ℕ
burst n epoch = epoch + n

-- The `match` on the stop channel. `ticks` stays below the u64 `epoch_ticks`, so it does not wrap.
await_stop : Received → Watch → Watch
await_stop timeout w = record w { epoch = w.epoch + 1; ticks = w.ticks + 1 }
await_stop _ w = record w { returned = true }

-- One round of the loop.
unfoldable pub round : ℕ → Round → Watch → Watch
unfolding await_stop
round epoch_ticks (cancelled, received) w =
    if cancelled
    then record w { epoch = burst epoch_ticks w.epoch; returned = true }
    else if leb epoch_ticks w.ticks
    then record w { returned = true }
    else await_stop received w

-- The loop, over what its rounds see.
unfoldable pub watchdog : ℕ → List Round → Watch → Watch
watchdog epoch_ticks [] w = w
watchdog epoch_ticks (r ∷ rs) w =
    watchdog epoch_ticks rs (if w.returned then w else round epoch_ticks r w)
