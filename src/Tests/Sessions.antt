-- ===== src/Tests/Sessions.antt =====
-- Sessions and pipes at concrete inputs.
use ferrous_runtime.Prelude.{◌≡◌, ◌∷◌, ◌≢◌, List, [], ok, some, false, true, refl, arith, ◌&&◌, leb}
use ferrous_runtime.Command.Session
use ferrous_runtime.Pipe
use ferrous_runtime.Pipe.Refine.{
  Call, IsFaithful, History, apply_calls, fresh, write_of_check_write, new_pipe-IsFaithful,
}
use ferrous_runtime.Command.Session.{SessionEvent, stdout, SessionState, accept, Lifecycle}
use ferrous_runtime.Command.Session.Order.{
  is_some, accept_all, IsWithinBudget, is_in_order, accept_keeps, output_size, accept_all-new,
}
use ferrous_runtime.Capability.Limits.{default_limits}

abbrev whole_session : List SessionEvent
whole_session =
    SessionEvent.started
    ∷ SessionEvent.output stdout (1 ∷ 2 ∷ [])
    ∷ SessionEvent.exited (some 0)
    ∷ []

accept_all-new_example :
    is_some (accept_all (Session.new 1 default_limits) whole_session)
    ≡ (is_in_order whole_session && leb (output_size whole_session) 1_048_576)
accept_all-new_example = accept_all-new 1 default_limits whole_session (omega arith)

abbrev running_session : SessionState
running_session = record {
  id = 1;
  limits = default_limits;
  output_bytes = 3;
  lifecycle = Lifecycle.running;
}

accept_keeps_example :
    ((accept running_session SessionEvent.started).1 ≢ ok tt
      → (accept running_session SessionEvent.started).0 ≡ running_session)
    × IsWithinBudget (accept running_session SessionEvent.started).0
    × ((accept running_session SessionEvent.started).0.id ≡ 1)
    × ((accept running_session SessionEvent.started).0.limits ≡ default_limits)
accept_keeps_example = accept_keeps running_session SessionEvent.started (omega arith)

abbrev calls : List Call
calls = Call.writes (1 ∷ 2 ∷ []) ∷ Call.drains ∷ Call.poll_writes (3 ∷ 4 ∷ []) ∷ Call.drains ∷ []

new_pipe-IsFaithful_example : IsFaithful 3 (apply_calls calls (fresh 3))
new_pipe-IsFaithful_example = new_pipe-IsFaithful 3 calls

abbrev closed_pipe : Pipe.Pipe
closed_pipe = record { capacity = 3; buffer = 5 ∷ []; read_pos = 0; eof = false; closed = true }

abbrev closed_history : History
closed_history = record { pipe = closed_pipe; taken = 5 ∷ []; drained = []; panicked = false }

abbrev open_pipe : Pipe.Pipe
open_pipe = record { capacity = 3; buffer = 5 ∷ []; read_pos = 0; eof = false; closed = false }

open_pipe-check : Pipe.check_write open_pipe ≡ ok 2
unfolding Pipe.check_write
open_pipe-check = refl

write_of_check_write_example :
    Pipe.write open_pipe (7 ∷ []) ≡ (record open_pipe { buffer = 5 ∷ 7 ∷ [] }, ok tt)
write_of_check_write_example =
    write_of_check_write open_pipe (7 ∷ []) (omega arith) open_pipe-check (omega arith)
