-- ===== src/Runtime/Stream.antt =====
-- The streaming run of `run_wasi_events_impl`, crates/wasi-runtime/src/lib.rs: a guest that writes
-- into two pipes, and a reader thread that drains them, enforces the combined output budget and moves
-- the epoch. The threads meet at the pipes' locks only, so a run is a sequence of their steps.
pub mod Invariant
pub mod Complete
pub mod Ends
use ferrous_runtime.Prelude.{
  ℕ, ◌+◌, ◌-◌, Bool, true, false, not, ◌&&◌, List, [], ◌∷◌, ◌++◌, none, some, length, leb, ltb,
  if◌then◌else◌,
}
use ferrous_runtime.Pipe
use ferrous_runtime.Pipe.{Pipe}
use ferrous_runtime.Command.Session.{Stream, stdout, stderr, SessionEvent, output}

-- Where the reader stands in its loop.
pub data Phase : Type 0 where
  drain_stdout drain_stderr enforce advance joined : Phase

pub record Run : Type 0 where
  pub out_pipe : Pipe
  pub err_pipe : Pipe
  pub phase : Phase
  pub total_stdout : List ℕ
  pub total_stderr : List ℕ
  pub out_eof : Bool
  pub err_eof : Bool
  pub budget_closed : Bool
  pub epoch : ℕ
  pub last_tick : ℕ
  pub events : List SessionEvent  -- sent on the channel, oldest first
  pub panicked : Bool

unfoldable pub start : ℕ → ℕ → Run
start budget now = record {
  out_pipe = Pipe.new budget;
  err_pipe = Pipe.new budget;
  phase = drain_stdout;
  total_stdout = [];
  total_stderr = [];
  out_eof = false;
  err_eof = false;
  budget_closed = false;
  epoch = 0;
  last_tick = now;
  events = [];
  panicked = false;
}

-- The event for a drained chunk, if it is not empty.
abbrev pub chunk : Stream → List ℕ → List SessionEvent
chunk stream [] = []
chunk stream (b ∷ bytes) = output stream (b ∷ bytes) ∷ []

unfoldable pub drain_out : Run → Run
drain_out r = elim (Pipe.wait_and_drain r.out_pipe) [
  | none ↦ record r { panicked = true }
  | some (bytes, eof, p) ↦ record r {
    out_pipe = p;
    out_eof = eof;
    total_stdout = r.total_stdout ++ bytes;
    events = r.events ++ chunk stdout bytes;
    phase = drain_stderr;
  }
]

unfoldable pub drain_err : Run → Run
drain_err r = elim (Pipe.wait_and_drain r.err_pipe) [
  | none ↦ record r { panicked = true }
  | some (bytes, eof, p) ↦ record r {
    err_pipe = p;
    err_eof = eof;
    total_stderr = r.total_stderr ++ bytes;
    events = r.events ++ chunk stderr bytes;
    phase = enforce;
  }
]

unfoldable pub enforce_budget : ℕ → Run → Run
enforce_budget budget r =
    if not r.budget_closed && ltb budget (length r.total_stdout + length r.total_stderr)
    then (record r {
      out_pipe = Pipe.close r.out_pipe;
      err_pipe = Pipe.close r.err_pipe;
      budget_closed = true;
      phase = advance;
    })
    else record r { phase = advance }

-- The epoch, and the exit of the loop. Times are in milliseconds.
unfoldable pub advance_epoch : ℕ → Bool → ℕ → Run → Run
advance_epoch epoch_ticks cancelled now r =
    let ticked =
      if cancelled
      then record r { epoch = r.epoch + epoch_ticks }
      else if leb 100 (now - r.last_tick)
      then record r { epoch = r.epoch + 1; last_tick = now }
      else r in
    record ticked { phase = if r.out_eof && r.err_eof then joined else drain_stdout }

-- The reader's next step. The flag and the time are what it would read there.
unfoldable pub reader_step : ℕ → ℕ → Bool → ℕ → Run → Run
unfolding drain_out drain_err enforce_budget advance_epoch
reader_step budget epoch_ticks cancelled now r = elim r.phase [
  | drain_stdout ↦ drain_out r
  | drain_stderr ↦ drain_err r
  | enforce ↦ enforce_budget budget r
  | advance ↦ advance_epoch epoch_ticks cancelled now r
  | joined ↦ r
]

unfoldable pub guest_write : Stream → List ℕ → Run → Run
guest_write stdout bytes r = record r { out_pipe = (Pipe.write r.out_pipe bytes).0 }
guest_write stderr bytes r = record r { err_pipe = (Pipe.write r.err_pipe bytes).0 }

-- `set_eof` on a pipe, once the store with the only writers has been dropped.
unfoldable pub finish_stream : Stream → Run → Run
finish_stream stdout r = record r { out_pipe = Pipe.set_eof r.out_pipe }
finish_stream stderr r = record r { err_pipe = Pipe.set_eof r.err_pipe }
