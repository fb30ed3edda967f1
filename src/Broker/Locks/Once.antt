-- ===== src/Broker/Locks/Once.antt =====
-- The terminal messages of crates/wasi-runtime/src/broker.rs over all interleavings of accesses.
use ferrous_runtime.Prelude.{
  ◌+◌, ◌≤◌, ◌≡◌, ◌∷◌, [], ℕ, List, Option, some, none, zero, suc, arith, ltb, refl, Result, ap,
  ◌==◌,
}
use ferrous_runtime.Broker.State.{Broker, ChannelId, Job, Active, Terminal, sink_channel}
use ferrous_runtime.Broker.Once.{
  one_if-le-one, initial-IsOnce, shut_down-Within, stop_worker-Within, drop_receiver-Within,
}
use ferrous_runtime.Broker.Tally.{
  tally, Within, terminals, queued, parked, in_runtime, one_if, one_if-and-le, is_terminal,
}
use ferrous_runtime.Broker.Tally.Calls.{send-Within, send_terminal-Within}
use ferrous_runtime.Broker.Tally.Worker.{stream_to-Within, left_runtime}
use ferrous_runtime.Broker.Worker.{stream_output, final_message}
use ferrous_runtime.Broker.Locks.{Task, access}
use ferrous_runtime.Broker.Locks.System.{
  System, Move, Call, move, moves, moves_induction, fresh, advance, advance_nth, receive, work,
  return_active, panic_in_runtime, first_task, calls, advances, works, outputs, finishes, panics,
  shuts_down, stops_worker, drops_receiver,
}
use ferrous_runtime.Broker.Locks.Tally.{Kept, held, holding, held-append, access-Kept}
use ferrous_runtime.Broker.Step.{stop_worker, drop_receiver}
use ferrous_runtime.Broker.Sweeper.{shut_down}
use ferrous_runtime.Runtime.Store.{RuntimeError, WasiOutput}
use ferrous_runtime.Command.Request.{invalid_transition}

unfoldable pub held_all : {C : Type 0} → ChannelId → List (List (Task C)) → ℕ
unfolding held
held_all c [] = 0
held_all c (tasks ∷ rest) = held c tasks + held_all c rest

first_task_idle : {C : Type 0} (c : ChannelId) (call : Call C) → holding c (first_task call) ≡ 0
first_task_idle c call = ground arith

module _ {C E : Type 0} (c : ChannelId) where
  -- The terminal messages of a channel, with those that a job can still send, wherever the job is.
  abbrev total : System C E → ℕ
  total y = tally c y.shared + held c y.worker + held_all c y.threads

  abbrev IsOnceAt : System C E → Type 0
  IsOnceAt y = total y ≤ one_if (ltb c y.shared.next_channel)

  advance-Kept :
      (now : ℕ) (tasks : List (Task C)) (s : Broker C E)
      → let (s', tasks') = advance now tasks s in Kept c (held c tasks) s (held c tasks') s'
  unfolding advance held
  advance-Kept now [] s = omega arith
  advance-Kept now (task ∷ tasks) s =
      omega (arith, access-Kept c now task s, held-append c (access now task s).1 tasks)

  advance_nth-Kept :
      (now i : ℕ) (threads : List (List (Task C))) (s : Broker C E)
      → let (s', threads') = advance_nth now i threads s in
        Kept c (held_all c threads) s (held_all c threads') s'
  unfolding advance_nth held_all
  advance_nth-Kept now i [] s = omega arith
  advance_nth-Kept now zero (tasks ∷ rest) s = omega (arith, advance-Kept now tasks s)
  advance_nth-Kept now (suc i) (tasks ∷ rest) s = omega (arith, advance_nth-Kept now i rest s)

  receive-Kept :
      (o : Option (Active C)) (jobs : List (Job C)) (s : Broker C E)
      → s.queue ≡ jobs
      → let (s', tasks) = receive o jobs s in Kept c 0 s (held c tasks) s'
  unfolding receive tally queued held
  receive-Kept none (job ∷ rest) s e = omega (arith, ap (queued c) e)
  receive-Kept none [] s e = omega arith
  receive-Kept (some a) jobs s e = omega arith

  work-Kept :
      (now : ℕ) (tasks : List (Task C)) (s : Broker C E)
      → let (s', tasks') = work now tasks s in Kept c (held c tasks) s (held c tasks') s'
  unfolding work held
  work-Kept now [] s = receive-Kept s.active s.queue s refl
  work-Kept now (task ∷ tasks) s = advance-Kept now (task ∷ tasks) s

  return_active-Kept :
      (r : Result (RuntimeError E) WasiOutput) (o : Option (Active C)) (tasks : List (Task C))
      (s : Broker C E)
      → s.active ≡ o
      → let (s', tasks') = return_active r o tasks s in Kept c (held c tasks) s (held c tasks') s'
  unfolding return_active held
  return_active-Kept r none tasks s e = omega arith
  return_active-Kept r (some a) tasks s e =
      let m = final_message a.job.sink r in
      let (less, same) = send-Within c (sink_channel a.job.sink) m (record s { active = none }) in
      omega (
        arith,
        left_runtime c a s e,
        one_if-and-le (is_terminal m) (sink_channel a.job.sink == c),
        ap (λ n. one_if (ltb c n)) same,
      )

  panic_in_runtime-Kept :
      (o : Option (Active C)) (tasks : List (Task C)) (s : Broker C E)
      → s.active ≡ o
      → let (s', tasks') = panic_in_runtime o tasks s in Kept c (held c tasks) s (held c tasks') s'
  unfolding panic_in_runtime held
  panic_in_runtime-Kept none tasks s e = omega arith
  panic_in_runtime-Kept (some a) tasks s e =
      let (less, same) =
        send_terminal-Within c a.job.sink
          (Terminal.denied_with (invalid_transition "worker panic while executing session"))
          (record s { active = none }) in
      omega (arith, left_runtime c a s e, ap (λ n. one_if (ltb c n)) same)

  Within-Kept : (s s' : Broker C E) → Within c 0 s s' → Kept c 0 s 0 s'
  Within-Kept s s' (less, same) = omega (arith, ap (λ n. one_if (ltb c n)) same)

  move-IsOnceAt : (m : Move C E) (y : System C E) → IsOnceAt y → IsOnceAt (move m y)
  unfolding move held held_all stream_output
  move-IsOnceAt (calls call) y h = omega (arith, first_task_idle c call)
  move-IsOnceAt (advances now i) y h = omega (arith, advance_nth-Kept now i y.threads y.shared)
  move-IsOnceAt (works now) y h = omega (arith, work-Kept now y.worker y.shared)
  move-IsOnceAt (outputs stream bytes) y h =
      let w = stream_to-Within c y.shared.active stream bytes y.shared in
      omega (arith, Within-Kept y.shared (stream_output stream bytes y.shared) w)
  move-IsOnceAt (finishes r) y h =
      omega (arith, return_active-Kept r y.shared.active y.worker y.shared refl)
  move-IsOnceAt panics y h =
      omega (arith, panic_in_runtime-Kept y.shared.active y.worker y.shared refl)
  move-IsOnceAt shuts_down y h =
      omega (arith, Within-Kept y.shared (shut_down y.shared) (shut_down-Within c y.shared))
  move-IsOnceAt stops_worker y h =
      omega (arith, Within-Kept y.shared (stop_worker y.shared) (stop_worker-Within c y.shared))
  move-IsOnceAt (drops_receiver d) y h =
      omega
        (arith, Within-Kept y.shared (drop_receiver d y.shared) (drop_receiver-Within c y.shared d))

module _ {C E : Type 0} where
  -- From a new broker, in whatever order the threads of the callers, the sweeper and the worker make
  -- their accesses to the shared state, one at a time: no channel receives more than one terminal
  -- message, and none while a job that holds the channel is queued, parked, in the runtime or in a local
  -- variable of a thread.
  pub interleaved_once :
      (capacity timeout : ℕ) (ms : List (Move C E)) (c : ChannelId)
      → let y = moves ms (fresh capacity timeout) in
        terminals c y.shared.sent
          + queued c y.shared.queue
          + parked c y.shared.pending
          + in_runtime c y.shared.active
          + held c y.worker
          + held_all c y.threads
        ≤ 1
  unfolding tally fresh held held_all
  interleaved_once capacity timeout ms c = omega (
    arith,
    moves_induction (IsOnceAt c) (move-IsOnceAt c) ms (fresh capacity timeout)
        (omega (arith, initial-IsOnce C E capacity timeout c)),
    one_if-le-one (ltb c (moves ms (fresh {C = C} {E = E} capacity timeout)).shared.next_channel),
  )
