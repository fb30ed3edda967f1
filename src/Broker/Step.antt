-- ===== src/Broker/Step.antt =====
-- The broker as a transition system: what callers, the worker, the sweeper and the receivers of
-- crates/wasi-runtime/src/broker.rs may do, one at a time and in any order.
use ferrous_runtime.Broker.State.{Broker, ChannelId}
use ferrous_runtime.Command.Request.{CommandRequest}
use ferrous_runtime.Prelude.{true, ◌∷◌, List, ℕ, [], none, Result}
use ferrous_runtime.Broker.Calls.{cancel, submit, submit_streaming, approve, deny}
use ferrous_runtime.Command.Session.{Stream}
use ferrous_runtime.Runtime.Store.{RuntimeError, WasiOutput}
use ferrous_runtime.Broker.Worker.{take_job, stream_output, finish_job, panic_job}
use ferrous_runtime.Broker.Sweeper.{Iteration, sweep, shut_down}

pub data Action (C E : Type 0) : Type 0 where
  submits streams : C → CommandRequest → Action C E
  approves denies cancels : ℕ → Action C E
  takes_job : ℕ → Action C E
  sweeps : Iteration C → ℕ → Action C E
  outputs : Stream → List ℕ → Action C E
  finishes : Result (RuntimeError E) WasiOutput → Action C E
  panics shuts_down stops_worker : Action C E
  drops_receiver : ChannelId → Action C E

module _ {C E : Type 0} where
  -- The worker's thread ends, and with it the receiver of the queue.
  unfoldable pub stop_worker : Broker C E → Broker C E
  stop_worker s = record s { worker_stopped = true; queue = []; active = none }

  unfoldable pub drop_receiver : ChannelId → Broker C E → Broker C E
  drop_receiver channel s = record s { dropped = channel ∷ s.dropped }

  unfoldable pub step : Action C E → Broker C E → Broker C E
  unfolding stop_worker drop_receiver
  step (submits compiled request) s = (submit compiled request s).0
  step (streams compiled request) s = (submit_streaming compiled request s).0
  step (approves id) s = (approve id s).0
  step (denies id) s = (deny id s).0
  step (cancels id) s = (cancel id s).0
  step (takes_job now) s = take_job now s
  step (sweeps order now) s = sweep order now s
  step (outputs stream bytes) s = stream_output stream bytes s
  step (finishes result) s = finish_job result s
  step panics s = panic_job s
  step shuts_down s = shut_down s
  step stops_worker s = stop_worker s
  step (drops_receiver channel) s = drop_receiver channel s

  unfoldable pub run : List (Action C E) → Broker C E → Broker C E
  run [] s = s
  run (a ∷ actions) s = run actions (step a s)

  -- A property that every step keeps holds after any run.
  pub run_induction {ℓ} :
      (P : Broker C E → Type ℓ)
      → ((a : Action C E) (s : Broker C E) → P s → P (step a s))
      → (actions : List (Action C E)) (s : Broker C E) → P s
      → P (run actions s)
  unfolding run
  run_induction P keep [] s h = h
  run_induction P keep (a ∷ actions) s h = run_induction P keep actions (step a s) (keep a s h)
