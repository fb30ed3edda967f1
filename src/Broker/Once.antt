-- ===== src/Broker/Once.antt =====
-- The terminal messages of crates/wasi-runtime/src/broker.rs over whole runs.
use ferrous_runtime.Prelude.{
  refl, ℕ, List, ◌≤◌, arith, ◌∷◌, ◌≡◌, ltb, ◌∙◌, [], subst, sym, ◌+◌, Bool,
}
use ferrous_runtime.Broker.Calls.{
  submit_with, check_request, submit, new_job, submit_streaming, initial,
}
use ferrous_runtime.Broker.Step.{
  Action, step, run, run_induction, stop_worker, drop_receiver, submits, streams, approves, denies,
  cancels, takes_job, sweeps, outputs, finishes, drops_receiver, panics, shuts_down, stops_worker,
}
use ferrous_runtime.Broker.State.{Broker, ChannelId, JobSink, sink_channel}
use ferrous_runtime.Broker.Sweeper.{expire_all, expire, shut_down, sweep, expired}
use ferrous_runtime.Broker.Tally.{tally, Within, one_if, terminals, queued, parked, in_runtime}
use ferrous_runtime.Command.Request.{CommandRequest}
use ferrous_runtime.Broker.Tally.Calls.{
  expire-Within, enqueue-Within, approve-Within, deny-Within, cancel-Within,
}
use ferrous_runtime.Broker.Worker.{take_job, stream_output, finish_job, panic_job}
use ferrous_runtime.Broker.Tally.Worker.{
  take_from-Within, stream_to-Within, finish_active-Within, panic_active-Within,
}

module _ {C E : Type 0} where
  -- Every channel that was opened has received at most one terminal message, counting those that its
  -- jobs can still send; a channel that was not opened has none.
  abbrev pub IsOnce : Broker C E → Type 0
  IsOnce s = (c : ChannelId) → tally c s ≤ one_if (ltb c s.next_channel)

  expire_all-Within :
      (c : ChannelId) (ids : List ℕ) (s : Broker C E) → Within c 0 s (expire_all ids s)
  unfolding expire_all
  expire_all-Within c [] s = (omega arith, refl)
  expire_all-Within c (id ∷ ids) s =
      let (less, same) = expire-Within c id s in
      let (less', same') = expire_all-Within c ids (expire id s) in (omega arith, same' ∙ same)

  module _ (c : ChannelId) (s : Broker C E) where
    pub shut_down-Within : Within c 0 s (shut_down s)
    unfolding shut_down tally
    shut_down-Within = (omega arith, refl)

    pub stop_worker-Within : Within c 0 s (stop_worker s)
    unfolding stop_worker tally queued
    stop_worker-Within = (omega arith, refl)

    pub drop_receiver-Within : (d : ChannelId) → Within c 0 s (drop_receiver d s)
    unfolding drop_receiver tally
    drop_receiver-Within d = (omega arith, refl)

  -- A call that opens no channel and spends what it takes keeps the invariant.
  pub Within-IsOnce :
      (s s' : Broker C E) → ((c : ChannelId) → Within c 0 s s') → IsOnce s → IsOnce s'
  Within-IsOnce s s' w h c =
      subst (λ n. tally c s' ≤ one_if (ltb c n)) (sym (w c).1) (omega (arith, (w c).0, h c))

  submit_with-IsOnce :
      (sink : ChannelId → JobSink) (compiled : C) (request : CommandRequest) (s : Broker C E)
      → ((d : ChannelId) → sink_channel (sink d) ≡ d)
      → IsOnce s
      → IsOnce (submit_with sink compiled request s).0
  unfolding submit_with check_request new_job tally
  submit_with-IsOnce sink compiled request s own h c = ground (
    arith,
    own s.next_channel,
    h c,
    enqueue-Within c (new_job compiled request (sink s.next_channel))
        (record s { next_channel = s.next_channel + 1 }),
  )

  pub step-IsOnce : (a : Action C E) (s : Broker C E) → IsOnce s → IsOnce (step a s)
  unfolding step submit submit_streaming take_job stream_output finish_job panic_job sweep
  step-IsOnce (submits compiled request) s h =
      submit_with-IsOnce JobSink.outcome compiled request s (λ d. refl) h
  step-IsOnce (streams compiled request) s h =
      submit_with-IsOnce JobSink.events compiled request s (λ d. refl) h
  step-IsOnce (approves id) s h = Within-IsOnce s _ (λ c. approve-Within c id s) h
  step-IsOnce (denies id) s h = Within-IsOnce s _ (λ c. deny-Within c id s) h
  step-IsOnce (cancels id) s h = Within-IsOnce s _ (λ c. cancel-Within c id s) h
  step-IsOnce (takes_job now) s h =
      Within-IsOnce s _ (λ c. take_from-Within c now s.active s.queue s refl) h
  step-IsOnce (sweeps order now) s h =
      Within-IsOnce s _ (λ c. expire_all-Within c (expired now (order s.pending)) s) h
  step-IsOnce (outputs stream bytes) s h =
      Within-IsOnce s _ (λ c. stream_to-Within c s.active stream bytes s) h
  step-IsOnce (finishes r) s h = Within-IsOnce s _ (λ c. finish_active-Within c s.active r s refl) h
  step-IsOnce panics s h = Within-IsOnce s _ (λ c. panic_active-Within c s.active s refl) h
  step-IsOnce shuts_down s h = Within-IsOnce s _ (λ c. shut_down-Within c s) h
  step-IsOnce stops_worker s h = Within-IsOnce s _ (λ c. stop_worker-Within c s) h
  step-IsOnce (drops_receiver d) s h = Within-IsOnce s _ (λ c. drop_receiver-Within c s d) h

pub one_if-le-one : (b : Bool) → one_if b ≤ 1
one_if-le-one b = ground arith

pub initial-IsOnce :
    (C E : Type 0) (capacity timeout : ℕ) → IsOnce {C = C} {E = E} (initial capacity timeout)
unfolding initial tally terminals queued parked
initial-IsOnce C E capacity timeout c = omega arith

module _ {C E : Type 0} where
  -- From a new broker, whatever the callers, the worker, the sweeper and the receivers do and in
  -- whatever order, no channel receives more than one terminal message, and none while a job that
  -- holds the channel is queued, parked or in the runtime.
  pub terminals-once :
      (capacity timeout : ℕ) (actions : List (Action C E)) (c : ChannelId)
      → let s = run actions (initial capacity timeout) in
        terminals c s.sent + queued c s.queue + parked c s.pending + in_runtime c s.active ≤ 1
  unfolding tally
  terminals-once capacity timeout actions c = omega (
    arith,
    run_induction IsOnce step-IsOnce actions (initial capacity timeout)
        (initial-IsOnce C E capacity timeout) c,
    one_if-le-one (ltb c (run actions (initial capacity timeout)).next_channel),
  )
