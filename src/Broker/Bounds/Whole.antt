-- ===== src/Broker/Bounds/Whole.antt =====
-- The bounds on the registered handles and on the audit trail of crates/wasi-runtime/src/broker.rs, over whole
-- runs.
use ferrous_runtime.Prelude.{◌≡◌, ℕ, List, length, ◌∷◌, ◌≤◌, ◌∙◌, arith, [], ◌+◌, refl}
use ferrous_runtime.HashMap
use ferrous_runtime.Cancel
use ferrous_runtime.Broker.State.{Broker, Job, ChannelId, default_max_audit_entries, JobSink}
use ferrous_runtime.Broker.Calls.{
  cancel, initial, enqueue, submit_with, register, check_request, submit, submit_streaming, new_job,
  approve, deny,
}
use ferrous_runtime.Broker.Step.{
  drops_receiver, panics, shuts_down, stops_worker, finishes, step, Action, run, run_induction,
  stop_worker, drop_receiver, submits, streams, approves, denies, cancels, takes_job, sweeps,
  outputs,
}
use ferrous_runtime.Broker.Sweeper.{expire_all, expire, sweep, shut_down, expired}
use ferrous_runtime.Broker.Bounds.{
  Shrinks, expire-Shrinks, send_job-Shrinks, approve-Shrinks, deny-Shrinks, cancel-Shrinks,
}
use ferrous_runtime.Broker.Worker.{
  finish_active, panic_active, take_job, stream_output, finish_job, panic_job, take_from, stream_to,
}
use ferrous_runtime.Command.Request.{CommandRequest}
use ferrous_runtime.Broker.Bounds.Worker.{
  take_from-Shrinks, stream_to-Shrinks, finish_active-Shrinks, panic_active-Shrinks,
}

module _ {C E : Type 0} (capacity : ℕ) where
  -- The capacity is the configured one, and the handles and the audit trail fit their bounds.
  abbrev pub IsBounded : Broker C E → Type 0
  IsBounded s =
      (s.capacity ≡ capacity)
      × (length s.handles ≤ capacity)
      × (length s.audit ≤ default_max_audit_entries)

  Shrinks-IsBounded : (s s' : Broker C E) → Shrinks s s' → IsBounded s → IsBounded s'
  Shrinks-IsBounded s s' (a, b, c) (d, e, f) = (a ∙ d, omega arith, omega arith)

  enqueue-IsBounded : (job : Job C) (s : Broker C E) → IsBounded s → IsBounded (enqueue job s).0
  unfolding enqueue register
  enqueue-IsBounded job s v = ground (
    arith,
    v,
    send_job-Shrinks job (register job.request.id s),
    HashMap.length-insert-le job.request.id (Cancel.new s.flags).0 s.handles,
  )

  submit_with-IsBounded :
      (sink : ChannelId → JobSink) (compiled : C) (request : CommandRequest) (s : Broker C E)
      → IsBounded s
      → IsBounded (submit_with sink compiled request s).0
  unfolding submit_with check_request
  submit_with-IsBounded sink compiled request s v = ground (
    arith,
    v,
    enqueue-IsBounded (new_job compiled request (sink s.next_channel))
        (record s { next_channel = s.next_channel + 1 }),
  )

  expire_all-IsBounded :
      (ids : List ℕ) (s : Broker C E) → IsBounded s → IsBounded (expire_all ids s)
  unfolding expire_all
  expire_all-IsBounded [] s v = v
  expire_all-IsBounded (id ∷ ids) s v =
      expire_all-IsBounded ids (expire id s)
        (Shrinks-IsBounded s (expire id s) (expire-Shrinks id s) v)

  step-IsBounded : (a : Action C E) (s : Broker C E) → IsBounded s → IsBounded (step a s)
  unfolding step submit submit_streaming take_job stream_output finish_job panic_job sweep shut_down
      stop_worker drop_receiver
  step-IsBounded (submits compiled request) s v =
      submit_with-IsBounded JobSink.outcome compiled request s v
  step-IsBounded (streams compiled request) s v =
      submit_with-IsBounded JobSink.events compiled request s v
  step-IsBounded (approves id) s v = Shrinks-IsBounded s (approve id s).0 (approve-Shrinks id s) v
  step-IsBounded (denies id) s v = Shrinks-IsBounded s (deny id s).0 (deny-Shrinks id s) v
  step-IsBounded (cancels id) s v = Shrinks-IsBounded s (cancel id s).0 (cancel-Shrinks id s) v
  step-IsBounded (takes_job now) s v =
      Shrinks-IsBounded s (take_from now s.active s.queue s)
        (take_from-Shrinks now s.active s.queue s) v
  step-IsBounded (sweeps order now) s v = expire_all-IsBounded (expired now (order s.pending)) s v
  step-IsBounded (outputs stream bytes) s v =
      Shrinks-IsBounded s (stream_to s.active stream bytes s)
        (stream_to-Shrinks s.active stream bytes s) v
  step-IsBounded (finishes r) s v =
      Shrinks-IsBounded s (finish_active r s.active s) (finish_active-Shrinks r s.active s) v
  step-IsBounded panics s v =
      Shrinks-IsBounded s (panic_active s.active s) (panic_active-Shrinks s.active s) v
  step-IsBounded shuts_down s v = v
  step-IsBounded stops_worker s v = v
  step-IsBounded (drops_receiver d) s v = v

  -- A new broker never has more handles registered than its capacity, nor more than 4096 audit
  -- entries, whatever is done and in whatever order. Sessions under one id share a handle, so that
  -- they count once.
  pub run-IsBounded :
      (timeout : ℕ) (actions : List (Action C E))
      → IsBounded (run actions (initial capacity timeout))
  unfolding initial
  run-IsBounded timeout actions =
      run_induction IsBounded step-IsBounded actions (initial capacity timeout)
        (refl, omega arith, omega arith)
