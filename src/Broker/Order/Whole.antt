-- ===== src/Broker/Order/Whole.antt =====
-- The order of the messages of crates/wasi-runtime/src/broker.rs over whole runs.
use ferrous_runtime.Prelude.{◌≡◌, ◌∷◌, [], ℕ, List, true, false, arith, refl}
use ferrous_runtime.Broker.State.{Broker, ChannelId, JobSink, is_connected}
use ferrous_runtime.Broker.Calls.{initial, submit, submit_streaming}
use ferrous_runtime.Broker.Worker.{take_job, stream_output, finish_job, panic_job}
use ferrous_runtime.Broker.Sweeper.{expire_all, expire, sweep, shut_down, expired}
use ferrous_runtime.Broker.Tally.Calls.{expire-Within}
use ferrous_runtime.Broker.Once.{IsOnce, step-IsOnce, initial-IsOnce, Within-IsOnce}
use ferrous_runtime.Broker.Step.{
  Action, step, run, run_induction, stop_worker, drop_receiver, submits, streams, approves, denies,
  cancels, takes_job, sweeps, outputs, finishes, panics, shuts_down, stops_worker, drops_receiver,
}
use ferrous_runtime.Broker.Order.{
  stage, stage_without, is_question, is_end, is_broken, ordered, KeepsOrdered,
}
use ferrous_runtime.Broker.Order.Apart.{in_order_apart}
use ferrous_runtime.Broker.Order.Calls.{
  submit_with-KeepsOrdered, approve-KeepsOrdered, deny-KeepsOrdered, cancel-KeepsOrdered,
  expire-KeepsOrdered,
}
use ferrous_runtime.Broker.Order.Worker.{take_from-KeepsOrdered}
use ferrous_runtime.Broker.Order.Running.{
  stream_to-KeepsOrdered, finish_active-KeepsOrdered, panic_active-KeepsOrdered,
}

module _ {C E : Type 0} (c : ChannelId) where
  expire_all-KeepsOrdered :
      (ids : List ℕ) (s : Broker C E) → IsOnce s → KeepsOrdered c s (expire_all ids s)
  unfolding expire_all
  expire_all-KeepsOrdered [] s once k = k
  expire_all-KeepsOrdered (id ∷ ids) s once k =
      expire_all-KeepsOrdered ids (expire id s)
        (Within-IsOnce s (expire id s) (λ d. expire-Within d id s) once)
        (expire-KeepsOrdered c id s (once c) k)

  step-KeepsOrdered : (a : Action C E) (s : Broker C E) → IsOnce s → KeepsOrdered c s (step a s)
  unfolding step submit submit_streaming take_job stream_output finish_job panic_job sweep shut_down
      stop_worker drop_receiver ordered is_connected
  step-KeepsOrdered (submits compiled request) s once k =
      submit_with-KeepsOrdered c JobSink.outcome compiled request s (λ d. refl) k
  step-KeepsOrdered (streams compiled request) s once k =
      submit_with-KeepsOrdered c JobSink.events compiled request s (λ d. refl) k
  step-KeepsOrdered (approves id) s once k = approve-KeepsOrdered c id s (once c) k
  step-KeepsOrdered (denies id) s once k = deny-KeepsOrdered c id s (once c) k
  step-KeepsOrdered (cancels id) s once k = cancel-KeepsOrdered c id s (once c) k
  step-KeepsOrdered (takes_job now) s once k =
      take_from-KeepsOrdered c now s.active s.queue s refl (once c) k
  step-KeepsOrdered (sweeps order now) s once k =
      expire_all-KeepsOrdered (expired now (order s.pending)) s once k
  step-KeepsOrdered (outputs stream bytes) s once k =
      stream_to-KeepsOrdered c s.active stream bytes s refl k
  step-KeepsOrdered (finishes r) s once k =
      finish_active-KeepsOrdered c s.active r s refl (once c) k
  step-KeepsOrdered panics s once k = panic_active-KeepsOrdered c s.active s refl (once c) k
  step-KeepsOrdered shuts_down s once k = k
  step-KeepsOrdered stops_worker s once k = ground arith
  step-KeepsOrdered (drops_receiver d) s once k = ground arith

initial-ordered :
    (C E : Type 0) (c : ChannelId) (capacity timeout : ℕ)
    → ordered {C = C} {E = E} c (initial capacity timeout) ≡ true
unfolding ordered initial stage is_connected
initial-ordered C E c capacity timeout = ground arith

module _ {C E : Type 0} where
  -- While `park` is one step, the question comes before the end.
  run_unbroken :
      (capacity timeout : ℕ) (actions : List (Action C E)) (c : ChannelId)
      → is_broken (stage c (run actions (initial capacity timeout)).sent) ≡ false
  unfolding ordered
  run_unbroken capacity timeout actions c =
      let (once, kept) =
        run_induction (λ s. IsOnce s × (ordered c s ≡ true))
          (λ a s (once, k). (step-IsOnce a s once, step-KeepsOrdered c a s once k)) actions
          (initial capacity timeout)
          (initial-IsOnce C E capacity timeout, initial-ordered C E c capacity timeout) in
      ground arith

  -- From a new broker, whatever is done and in whatever order, one whole method at a time, the messages
  -- of a channel are in order. Apart from the questions: at most one start, output only after it, one
  -- end and nothing after it, and a session that says how it exited has said that it started. Apart
  -- from the ends that no guest makes: at most one question, and it comes before the start and the
  -- output. Between the question and such an end nothing is said.
  pub messages_in_order :
      (capacity timeout : ℕ) (actions : List (Action C E)) (c : ChannelId)
      → let sent = (run actions (initial capacity timeout)).sent in
        (is_broken (stage_without is_question c sent) ≡ false)
        × (is_broken (stage_without is_end c sent) ≡ false)
  messages_in_order capacity timeout actions c =
      in_order_apart c (run actions (initial capacity timeout)).sent
        (run_unbroken capacity timeout actions c)
