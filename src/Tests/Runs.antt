-- ===== src/Tests/Runs.antt =====
-- The threads of a run at concrete inputs.
use ferrous_runtime.Prelude.{
  ◌≡◌, ◌∷◌, List, ◌≤◌, false, [], ◌++◌, Bool, min, true, length, ℕ, arith, ◌+◌, refl, ◌*◌,
}
use ferrous_runtime.Pipe
use ferrous_runtime.Runtime.Stream.Invariant.{Move, IsFaithfulRun, moves, move, streamed}
use ferrous_runtime.Runtime.Stream.{
  start, joined, drain_stderr, Run, reader_step, guest_write, finish_stream, drain_out, drain_err,
  enforce_budget, advance_epoch,
}
use ferrous_runtime.Command.Session.{stdout, stderr}
use ferrous_runtime.Runtime.Watchdog.{Round, Received, watchdog}
use ferrous_runtime.Runtime.Stream.Ends.{reader_steps, reader_steps-joined}
use ferrous_runtime.Runtime.Watchdog.Deadline.{begin, watchdog-quiet, watchdog-cancelled}
use ferrous_runtime.Runtime.Stream.Complete.{stream-IsFaithfulRun, joined_complete}

abbrev two_rounds : List Round
two_rounds = (false, Received.timeout) ∷ (false, Received.timeout) ∷ []

watchdog-quiet_example : (watchdog 5 two_rounds begin).epoch ≡ min 5 (length two_rounds)
watchdog-quiet_example = watchdog-quiet 5 two_rounds refl

watchdog-cancelled_example :
    (5 ≤ (watchdog 5 (two_rounds ++ (true, Received.timeout) ∷ []) begin).epoch)
    × ((watchdog 5 (two_rounds ++ (true, Received.timeout) ∷ []) begin).epoch ≤ 5 + 5)
watchdog-cancelled_example = watchdog-cancelled 5 two_rounds [] Received.timeout refl

abbrev reading : Move
reading = Move.reads false 0

-- The guest writes on both streams while the reader is at work, and then ends.
abbrev two_writes : List Move
two_writes =
    Move.writes stdout (1 ∷ 2 ∷ [])
    ∷ reading
    ∷ Move.writes stderr (3 ∷ [])
    ∷ reading
    ∷ reading
    ∷ reading
    ∷ Move.ends stdout
    ∷ Move.ends stderr
    ∷ reading
    ∷ reading
    ∷ reading
    ∷ reading
    ∷ []

stream-IsFaithfulRun_example : IsFaithfulRun 4 (moves 4 300 two_writes (start 4 0))
stream-IsFaithfulRun_example = stream-IsFaithfulRun 4 300 0 two_writes

two_writes-joined : (moves 4 300 two_writes (start 4 0)).phase ≡ joined
unfolding moves move start reader_step guest_write finish_stream drain_out drain_err enforce_budget
    advance_epoch Pipe.new Pipe.write Pipe.wait_and_drain Pipe.set_eof Pipe.close
two_writes-joined = refl

joined_complete_example :
    let r = moves 4 300 two_writes (start 4 0) in
    (r.total_stdout ≡ Pipe.contents r.out_pipe)
    × (r.total_stderr ≡ Pipe.contents r.err_pipe)
    × (streamed stdout r.events ≡ r.total_stdout)
    × (streamed stderr r.events ≡ r.total_stderr)
    × (length r.total_stdout + length r.total_stderr ≤ 2 * 4)
joined_complete_example = joined_complete 4 300 0 two_writes refl two_writes-joined

-- Both pipes have ended while the reader stood between its two drains.
abbrev ended_run : Run
ended_run = record {
  out_pipe = record { capacity = 4; buffer = 1 ∷ []; read_pos = 0; eof = true; closed = false };
  err_pipe = record { capacity = 4; buffer = []; read_pos = 0; eof = true; closed = false };
  phase = drain_stderr;
  total_stdout = [];
  total_stderr = [];
  out_eof = false;
  err_eof = false;
  budget_closed = false;
  epoch = 0;
  last_tick = 0;
  events = [];
  panicked = false;
}

abbrev seven_steps : List (Bool × ℕ)
seven_steps =
    (false, 1) ∷ (false, 2) ∷ (true, 3) ∷ (false, 4) ∷ (false, 5) ∷ (false, 6) ∷ (false, 7) ∷ []

reader_steps-joined_example : (reader_steps 4 300 seven_steps ended_run).phase ≡ joined
reader_steps-joined_example =
    reader_steps-joined 4 300 seven_steps ended_run refl refl (omega arith) (omega arith)
      (omega arith)

-- A guest that fills both pipes before the first drain has twice the budget returned.
abbrev greedy : List Move
greedy = Move.writes stdout (1 ∷ 2 ∷ []) ∷ Move.writes stderr (3 ∷ 4 ∷ []) ∷ reading ∷ reading ∷ []

twice_the_budget :
    let r = moves 2 300 greedy (start 2 0) in length r.total_stdout + length r.total_stderr ≡ 2 * 2
unfolding moves move start reader_step guest_write drain_out drain_err Pipe.new Pipe.write
    Pipe.wait_and_drain
twice_the_budget = refl
