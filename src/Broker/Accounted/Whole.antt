-- ===== src/Broker/Accounted/Whole.antt =====
-- The sessions of crates/wasi-runtime/src/broker.rs over whole runs.
use ferrous_runtime.Prelude.{◌≡◌, ◌≤◌, ◌+◌, ◌∷◌, ◌++◌, [], ℕ, List, true, all, arith, refl}
use ferrous_runtime.Broker.State.{Broker, ChannelId, JobSink, is_connected}
use ferrous_runtime.Broker.Calls.{submit, submit_streaming}
use ferrous_runtime.Broker.Worker.{take_job, stream_output, finish_job, panic_job}
use ferrous_runtime.Broker.Sweeper.{expire_all, expire, sweep, shut_down, expired}
use ferrous_runtime.Broker.Approval.{is_safe, parked_ok}
use ferrous_runtime.Broker.Approval.Gate.{step-KeepsSafe, approved_id}
use ferrous_runtime.Broker.Tally.{tally}
use ferrous_runtime.Broker.Step.{
  Action, step, run, stop_worker, drop_receiver, submits, streams, approves, denies, cancels,
  takes_job, sweeps, outputs, finishes, panics, shuts_down, stops_worker, drops_receiver,
}
use ferrous_runtime.Broker.Accounted.{
  count, submitted_id, submitted_ids, queue_ids, keys, waiting, owes, Pays,
}
use ferrous_runtime.Broker.Accounted.Ids.{
  submit_with-waiting, approve-waiting, deny-waiting, cancel-waiting, expire-waiting,
}
use ferrous_runtime.Broker.Accounted.Served.{
  take_from-waiting, stream_to-waiting, finish_active-waiting, panic_active-waiting,
}
use ferrous_runtime.Broker.Accounted.Calls.{
  submit_with-Pays, approve-Pays, deny-Pays, cancel-Pays, expire-Pays,
}
use ferrous_runtime.Broker.Accounted.Worker.{take_from-Pays}
use ferrous_runtime.Broker.Accounted.Running.{stream_to-Pays, finish_active-Pays, panic_active-Pays}

pub count-append : (i : ℕ) (xs ys : List ℕ) → count i (xs ++ ys) ≡ count i xs + count i ys
unfolding count
count-append i [] ys = omega arith
count-append i (x ∷ xs) ys = omega (arith, count-append i xs ys)

all-true : (ids : List ℕ) → all (λ (id : ℕ). true) ids ≡ true
all-true [] = refl
all-true (id ∷ ids) = all-true ids

module _ {C E : Type 0} where
  -- The sessions are parked under their own ids.
  abbrev pub Sound : Broker C E → Type 0
  Sound s = is_safe (λ id. true) s ≡ true

  pub step-Sound : (a : Action C E) (s : Broker C E) → Sound s → Sound (step a s)
  step-Sound a s k = step-KeepsSafe (λ id. true) a s (all-true (approved_id a)) k

  expire_all-waiting :
      (i : ℕ) (ids : List ℕ) (s : Broker C E) → waiting i (expire_all ids s) ≤ waiting i s
  unfolding expire_all
  expire_all-waiting i [] s = omega arith
  expire_all-waiting i (id ∷ ids) s =
      omega (arith, expire_all-waiting i ids (expire id s), expire-waiting i id s)

  pub parked_under_own : (s : Broker C E) → Sound s → all parked_ok s.pending ≡ true
  unfolding is_safe
  parked_under_own s k = ground arith

  step-waiting :
      (i : ℕ) (a : Action C E) (s : Broker C E)
      → Sound s
      → waiting i (step a s) ≤ waiting i s + count i (submitted_id a)
  unfolding step submit submit_streaming take_job stream_output finish_job panic_job sweep shut_down
      stop_worker drop_receiver count waiting queue_ids
  step-waiting i (submits compiled request) s k =
      omega (arith, submit_with-waiting i JobSink.outcome compiled request s)
  step-waiting i (streams compiled request) s k =
      omega (arith, submit_with-waiting i JobSink.events compiled request s)
  step-waiting i (approves id) s k = omega (arith, approve-waiting i id s (parked_under_own s k))
  step-waiting i (denies id) s k = omega (arith, deny-waiting i id s)
  step-waiting i (cancels id) s k = omega (arith, cancel-waiting i id s)
  step-waiting i (takes_job now) s k =
      omega (arith, take_from-waiting i now s.active s.queue s refl)
  step-waiting i (sweeps order now) s k =
      omega (arith, expire_all-waiting i (expired now (order s.pending)) s)
  step-waiting i (outputs stream bytes) s k =
      omega (arith, stream_to-waiting i s.active stream bytes s)
  step-waiting i (finishes r) s k = omega (arith, finish_active-waiting i s.active r s)
  step-waiting i panics s k = omega (arith, panic_active-waiting i s.active s)
  step-waiting i shuts_down s k = omega arith
  step-waiting i stops_worker s k = omega arith
  step-waiting i (drops_receiver d) s k = omega arith

  -- No waiting session shares its id with another, or with one that is still to be submitted.
  abbrev pub Alone : Broker C E → List (Action C E) → Type 0
  Alone s actions = (i : ℕ) → waiting i s + count i (submitted_ids actions) ≤ 1

  pub Alone-step :
      (a : Action C E) (actions : List (Action C E)) (s : Broker C E)
      → Sound s
      → Alone s (a ∷ actions)
      → Alone (step a s) actions
  Alone-step a actions s k alone i = omega (
    arith,
    alone i,
    step-waiting i a s k,
    count-append i (submitted_id a) (submitted_ids actions),
  )

  module _ (c : ChannelId) where
    keys_once : (s : Broker C E) → ((i : ℕ) → waiting i s ≤ 1) → (id : ℕ) → keys id s.pending ≤ 1
    unfolding waiting
    keys_once s alone id = omega (arith, alone id)

    expire_all-Pays :
        (ids : List ℕ) (s : Broker C E)
        → ((i : ℕ) → waiting i s ≤ 1)
        → Pays c 0 s (expire_all ids s)
    unfolding expire_all
    expire_all-Pays [] s alone h = h
    expire_all-Pays (id ∷ ids) s alone h =
        expire_all-Pays ids (expire id s) (λ i. omega (arith, alone i, expire-waiting i id s))
          (expire-Pays c id s (keys_once s alone id) h)

    step-Pays :
        (a : Action C E) (s : Broker C E) → ((i : ℕ) → waiting i s ≤ 1) → Pays c 0 s (step a s)
    unfolding step submit submit_streaming take_job stream_output finish_job panic_job sweep
        shut_down stop_worker drop_receiver owes is_connected tally
    step-Pays (submits compiled request) s alone h =
        submit_with-Pays c JobSink.outcome compiled request s h
    step-Pays (streams compiled request) s alone h =
        submit_with-Pays c JobSink.events compiled request s h
    step-Pays (approves id) s alone h = approve-Pays c id s (keys_once s alone id) h
    step-Pays (denies id) s alone h = deny-Pays c id s (keys_once s alone id) h
    step-Pays (cancels id) s alone h = cancel-Pays c id s (keys_once s alone id) h
    step-Pays (takes_job now) s alone h = take_from-Pays c now s.active s.queue s refl refl alone h
    step-Pays (sweeps order now) s alone h =
        expire_all-Pays (expired now (order s.pending)) s alone h
    step-Pays (outputs stream bytes) s alone h = stream_to-Pays c s.active stream bytes s h
    step-Pays (finishes r) s alone h = finish_active-Pays c s.active r s refl h
    step-Pays panics s alone h = panic_active-Pays c s.active s refl h
    step-Pays shuts_down s alone h = h
    step-Pays stops_worker s alone h = ground arith
    step-Pays (drops_receiver d) s alone h = ground arith

    pub run-Pays :
        (actions : List (Action C E)) (s : Broker C E)
        → Sound s
        → Alone s actions
        → Pays c 0 s (run actions s)
    unfolding run
    run-Pays [] s k alone h = h
    run-Pays (a ∷ actions) s k alone h =
        run-Pays actions (step a s) (step-Sound a s k) (Alone-step a actions s k alone)
          (step-Pays a s (λ i. omega (arith, alone i)) h)
