-- ===== src/Broker/Accounted/Sessions.antt =====
-- What becomes of one session of crates/wasi-runtime/src/broker.rs.
use ferrous_runtime.Prelude.{
  ◌≡◌, ◌≤◌, ◌+◌, ◌∷◌, ◌++◌, [], ℕ, List, Bool, true, false, arith, refl, sym, ◌∙◌, ok, subst,
}
use ferrous_runtime.Command.Request.{CommandRequest}
use ferrous_runtime.Broker.State.{Broker, ChannelId, is_connected, release}
use ferrous_runtime.Broker.Calls.{
  initial, submit, submit_streaming, submit_with, check_request, enqueue, register, send_job,
  new_job,
}
use ferrous_runtime.Broker.Approval.Gate.{initial-is_safe}
use ferrous_runtime.Broker.Tally.{tally, terminals, queued, parked, in_runtime, queued-append}
use ferrous_runtime.Broker.Once.{terminals-once}
use ferrous_runtime.Broker.Step.{Action, step, run, submits, streams}
use ferrous_runtime.Broker.Locks.{sink_of}
use ferrous_runtime.Broker.Accounted.{count, submitted_ids, queue_ids, keys, waiting, owes}
use ferrous_runtime.Broker.Accounted.Whole.{Sound, Alone, step-Sound, Alone-step, run-Pays}

module _ {C E : Type 0} where
  -- `submit_streaming`, or `submit`.
  abbrev pub opening : Bool → C → CommandRequest → Action C E
  opening true compiled request = streams compiled request
  opening false compiled request = submits compiled request

  run-append :
      (before after : List (Action C E)) (s : Broker C E)
      → run (before ++ after) s ≡ run after (run before s)
  unfolding run
  run-append [] after s = refl
  run-append (a ∷ before) after s = run-append before after (step a s)

  run-Alone :
      (before after : List (Action C E)) (s : Broker C E)
      → Sound s
      → Alone s (before ++ after)
      → Sound (run before s) × Alone (run before s) after
  unfolding run
  run-Alone [] after s k alone = (k, alone)
  run-Alone (a ∷ before) after s k alone =
      run-Alone before after (step a s) (step-Sound a s k)
        (Alone-step a (before ++ after) s k alone)

  -- A session that was accepted is in the queue.
  accepted-Owes :
      (streaming : Bool) (compiled : C) (request : CommandRequest) (s : Broker C E) (c : ChannelId)
      → (submit_with (sink_of streaming) compiled request s).1 ≡ ok c
      → owes c 0 (submit_with (sink_of streaming) compiled request s).0 ≡ true
  unfolding submit_with check_request new_job enqueue register send_job release owes is_connected
      tally
  accepted-Owes true compiled request s c e =
      ground
        (arith, queued-append c s.queue (new_job compiled request (sink_of true s.next_channel)))
  accepted-Owes false compiled request s c e =
      ground
        (arith, queued-append c s.queue (new_job compiled request (sink_of false s.next_channel)))

  opened-Owes :
      (streaming : Bool) (compiled : C) (request : CommandRequest) (s : Broker C E) (c : ChannelId)
      → (submit_with (sink_of streaming) compiled request s).1 ≡ ok c
      → owes c 0 (step (opening streaming compiled request) s) ≡ true
  unfolding step submit submit_streaming
  opened-Owes true compiled request s c e = accepted-Owes true compiled request s c e
  opened-Owes false compiled request s c e = accepted-Owes false compiled request s c e

initial-Alone :
    (C E : Type 0) (capacity timeout : ℕ) (actions : List (Action C E))
    → ((i : ℕ) → count i (submitted_ids actions) ≤ 1)
    → Alone (initial capacity timeout) actions
unfolding initial waiting queue_ids keys
initial-Alone C E capacity timeout actions distinct i = omega (arith, distinct i)

module _ {C E : Type 0} where
  -- If no two sessions are submitted under the same id, then from a new broker, whatever else is done and
  -- in whatever order: a session that was accepted has had exactly one terminal message, or exactly one
  -- job in the queue, among the parked ones or in the runtime still holds its channel, as long as its
  -- receiver is there and the worker has not stopped.
  pub accounted :
      (capacity timeout : ℕ) (before after : List (Action C E)) (streaming : Bool) (compiled : C)
      (request : CommandRequest) (c : ChannelId) {s : Broker C E}
      → ((i : ℕ)
          → count i (submitted_ids (before ++ opening streaming compiled request ∷ after)) ≤ 1)
      → (submit_with (sink_of streaming) compiled request (run before (initial capacity timeout))).1
        ≡ ok c
      → run (before ++ opening streaming compiled request ∷ after) (initial capacity timeout) ≡ s
      → is_connected c s ≡ true
      → s.worker_stopped ≡ false
      → terminals c s.sent + queued c s.queue + parked c s.pending + in_runtime c s.active ≡ 1
  unfolding owes tally run
  accounted capacity timeout before after streaming compiled request c {s} distinct accepted e heard
        works =
      let new = initial capacity timeout in
      let a = opening streaming compiled request in
      let (k, alone) =
        run-Alone before (a ∷ after) new (initial-is_safe C E (λ id. true) capacity timeout)
          (initial-Alone C E capacity timeout (before ++ a ∷ after) distinct) in
      let t = run before new in
      let owed =
        run-Pays c after (step a t) (step-Sound a t k) (Alone-step a after t k alone)
          (opened-Owes streaming compiled request t c accepted) in
      let owed_at_end : owes c 0 s ≡ true =
        subst (λ u. owes c 0 u ≡ true) (sym (run-append before (a ∷ after) new) ∙ e) owed in
      let once =
        subst
          (λ u.
            terminals c u.sent + queued c u.queue + parked c u.pending + in_runtime c u.active ≤ 1)
          e (terminals-once capacity timeout (before ++ a ∷ after) c) in
      ground arith
