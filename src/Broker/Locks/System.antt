-- ===== src/Broker/Locks/System.antt =====
-- The threads of crates/wasi-runtime/src/broker.rs over the shared state, in any interleaving of their
-- accesses: one thread per call of a method and per round of the sweeper, and the worker.
use ferrous_runtime.Prelude.{
  ◌∷◌, ◌++◌, ℕ, List, [], Option, some, none, zero, suc, Result, true, false,
}
use ferrous_runtime.Command.Request.{CommandRequest, invalid_transition}
use ferrous_runtime.Command.Session.{Stream}
use ferrous_runtime.Runtime.Store.{RuntimeError, WasiOutput}
use ferrous_runtime.Broker.State.{
  Broker, ChannelId, Job, Active, AuditOutcome, Terminal, entry_of, send, send_terminal,
  sink_channel,
}
use ferrous_runtime.Broker.Calls.{initial}
use ferrous_runtime.Broker.Worker.{stream_output, final_message, audit_of}
use ferrous_runtime.Broker.Sweeper.{Iteration, shut_down}
use ferrous_runtime.Broker.Step.{stop_worker, drop_receiver}
use ferrous_runtime.Broker.Locks.{
  Task, Purpose, access, open_session, take_parked, collect_expired, look_up, record_end,
  release_handle,
}

pub data Call (C : Type 0) : Type 0 where
  submits streams : C → CommandRequest → Call C
  approves denies cancels : ℕ → Call C
  sweeps : Iteration C → Call C

-- The first access of a call.
abbrev pub first_task : {C : Type 0} → Call C → Task C
first_task (submits compiled request) = open_session false compiled request
first_task (streams compiled request) = open_session true compiled request
first_task (approves id) = take_parked Purpose.to_approve id
first_task (denies id) = take_parked Purpose.to_deny id
first_task (cancels id) = take_parked Purpose.to_cancel id
first_task (sweeps order) = collect_expired order

-- What the threads have still to do.
pub record System (C E : Type 0) : Type 0 where
  pub shared : Broker C E
  pub worker : List (Task C)
  pub threads : List (List (Task C))

-- What happens next. Times are those at which an access takes place.
pub data Move (C E : Type 0) : Type 0 where
  calls : Call C → Move C E
  advances : ℕ → ℕ → Move C E  -- the time, and the thread
  works : ℕ → Move C E
  outputs : Stream → List ℕ → Move C E
  finishes : Result (RuntimeError E) WasiOutput → Move C E
  panics shuts_down stops_worker : Move C E
  drops_receiver : ChannelId → Move C E

module _ {C E : Type 0} where
  -- The next access of a thread.
  unfoldable pub advance : ℕ → List (Task C) → Broker C E → Broker C E × List (Task C)
  advance now [] s = (s, [])
  advance now (task ∷ tasks) s = let (s', more) = access now task s in (s', more ++ tasks)

  -- The next access of the thread with a number.
  unfoldable pub advance_nth :
      ℕ → ℕ → List (List (Task C)) → Broker C E → Broker C E × List (List (Task C))
  unfolding advance
  advance_nth now i [] s = (s, [])
  advance_nth now zero (tasks ∷ rest) s =
      let (s', tasks') = advance now tasks s in (s', tasks' ∷ rest)
  advance_nth now (suc i) (tasks ∷ rest) s =
      let (s', rest') = advance_nth now i rest s in (s', tasks ∷ rest')

  -- `queue_rx.recv()` of a worker that runs no job.
  unfoldable pub receive :
      Option (Active C) → List (Job C) → Broker C E → Broker C E × List (Task C)
  receive none (job ∷ rest) s = (record s { queue = rest }, look_up job ∷ [])
  receive none [] s = (s, [])
  receive (some a) jobs s = (s, [])

  -- The worker goes on with its job, or takes the next one.
  unfoldable pub work : ℕ → List (Task C) → Broker C E → Broker C E × List (Task C)
  unfolding advance receive
  work now [] s = receive s.active s.queue s
  work now (task ∷ tasks) s = advance now (task ∷ tasks) s

  -- The runtime returns: the last message of the session, then the audit entry and the handle.
  unfoldable pub return_active :
      Result (RuntimeError E) WasiOutput
      → Option (Active C)
      → List (Task C)
      → Broker C E
      → Broker C E × List (Task C)
  return_active result none tasks s = (s, tasks)
  return_active result (some a) tasks s = (
    (send (sink_channel a.job.sink) (final_message a.job.sink result)
        (record s { active = none })).0,
    record_end (entry_of a.job.request.id a.job a.decision (audit_of result))
        ∷ release_handle a.job.request.id
        ∷ tasks,
  )

  -- The runtime panics, and `process_job_guarded` reports it.
  unfoldable pub panic_in_runtime :
      Option (Active C) → List (Task C) → Broker C E → Broker C E × List (Task C)
  panic_in_runtime none tasks s = (s, tasks)
  panic_in_runtime (some a) tasks s = (
    send_terminal a.job.sink
        (Terminal.denied_with (invalid_transition "worker panic while executing session"))
        (record s { active = none }),
    record_end (entry_of a.job.request.id a.job a.job.admission AuditOutcome.failed)
        ∷ release_handle a.job.request.id
        ∷ tasks,
  )

  abbrev pub with_worker : System C E → Broker C E × List (Task C) → System C E
  with_worker y (s, tasks) = record y { shared = s; worker = tasks }

  unfoldable pub move : Move C E → System C E → System C E
  unfolding advance_nth work return_active panic_in_runtime
  move (calls call) y = record y { threads = (first_task call ∷ []) ∷ y.threads }
  move (advances now i) y =
      let (s, threads) = advance_nth now i y.threads y.shared in
      record y { shared = s; threads = threads }
  move (works now) y = with_worker y (work now y.worker y.shared)
  move (outputs stream bytes) y = record y { shared = stream_output stream bytes y.shared }
  move (finishes result) y = with_worker y (return_active result y.shared.active y.worker y.shared)
  move panics y = with_worker y (panic_in_runtime y.shared.active y.worker y.shared)
  move shuts_down y = record y { shared = shut_down y.shared }
  move stops_worker y = record y { shared = stop_worker y.shared; worker = [] }
  move (drops_receiver channel) y = record y { shared = drop_receiver channel y.shared }

  unfoldable pub moves : List (Move C E) → System C E → System C E
  moves [] y = y
  moves (m ∷ ms) y = moves ms (move m y)

  -- A new broker, before any call.
  unfoldable pub fresh : ℕ → ℕ → System C E
  fresh capacity timeout = record { shared = initial capacity timeout; worker = []; threads = [] }

  -- A property that every move keeps holds after any schedule.
  pub moves_induction {ℓ} :
      (P : System C E → Type ℓ)
      → ((m : Move C E) (y : System C E) → P y → P (move m y))
      → (ms : List (Move C E)) (y : System C E) → P y
      → P (moves ms y)
  unfolding moves
  moves_induction P keep [] y h = h
  moves_induction P keep (m ∷ ms) y h = moves_induction P keep ms (move m y) (keep m y h)
