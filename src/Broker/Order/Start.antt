-- ===== src/Broker/Order/Start.antt =====
-- The order of messages where a job of crates/wasi-runtime/src/broker.rs starts.
use ferrous_runtime.Prelude.{
  ◌≡◌, ◌==◌, ◌||◌, ℕ, Bool, true, false, some, arith, inl, inr, Bool-cases, refl, sym, subst, ok,
  err, ap, ◌∙◌,
}
use ferrous_runtime.Command.Session
use ferrous_runtime.Command.Session.{SessionEvent, Accepted, Stream}
use ferrous_runtime.Command.Request.{invalid_transition}
use ferrous_runtime.Broker.State.{
  Broker, Job, JobSink, Active, ChannelId, Terminal, ApprovalDecision, sink_channel, is_connected,
  release, record_entry, send,
}
use ferrous_runtime.Broker.Worker.{
  complete, start_cancelled, start_refused, start_accepted, start_execution, announce_start,
  orphaned,
}
use ferrous_runtime.Broker.Order.{
  Stage, after, stage, is_asked, is_fresh, fits_queued, fits_active, stage_of, ordered,
  KeepsOrdered, Owns, running,
}
use ferrous_runtime.Broker.Order.Send.{
  is_open, Owns_weaken, send_terminal-KeepsOrdered, parked_fits_none, queued_fits_none,
}

-- A stage at which a guest may start.
abbrev pub waits : Stage → Bool
waits st = is_fresh st || is_asked st

pub queued_waits :
    {C : Type 0} (job : Job C) (st : Stage) → fits_queued job st ≡ true → waits st ≡ true
queued_waits job st h = ground arith

waiting_is_open : (st : Stage) → waits st ≡ true → is_open st ≡ true
waiting_is_open st h = ground arith

module _ {C E : Type 0} (c : ChannelId) where
  module _ (job : Job C) (s : Broker C E) (own : Owns c waits job.sink s) where
    abbrev own_open : Owns c is_open job.sink s
    own_open = Owns_weaken c waits is_open job.sink s waiting_is_open own

    start_cancelled-KeepsOrdered :
        (d : ApprovalDecision) → KeepsOrdered c s (start_cancelled job d s)
    unfolding start_cancelled complete release record_entry ordered is_connected
    start_cancelled-KeepsOrdered d k =
        send_terminal-KeepsOrdered c job.sink Terminal.cancelled s own_open k

    start_refused-KeepsOrdered : (d : ApprovalDecision) → KeepsOrdered c s (start_refused job d s)
    unfolding start_refused complete release record_entry ordered is_connected
    start_refused-KeepsOrdered d k =
        send_terminal-KeepsOrdered c job.sink
          (Terminal.denied_with (invalid_transition "session cannot start")) s own_open k

    pub orphaned-KeepsOrdered : KeepsOrdered c s (orphaned job s)
    unfolding orphaned release ordered is_connected
    orphaned-KeepsOrdered k =
        send_terminal-KeepsOrdered c job.sink
          (Terminal.denied_with (invalid_transition "session handle disappeared before start")) s
          own_open k

  -- A job enters the runtime.
  module _ (a : Active C) (s : Broker C E) where
    abbrev started_on : JobSink → Broker C E
    started_on sink = record (announce_start sink s) { active = some a }

    enter_streaming :
        a.job.sink ≡ JobSink.events c
        → Owns c waits (JobSink.events c) s
        → KeepsOrdered c s (started_on (JobSink.events c))
    unfolding announce_start send ordered is_connected stage after
    enter_streaming e own k =
        let (none_left, opened, known) = own (ground arith) in
        ground (
          arith,
          ap (λ sink. fits_active sink running) e,
          queued_fits_none c running s.queue (omega arith),
          parked_fits_none c running s.pending (omega arith),
        )

    enter_other :
        (sink : JobSink)
        → a.job.sink ≡ sink
        → (sink_channel sink == c) ≡ false
        → KeepsOrdered c s (started_on sink)
    unfolding announce_start send ordered is_connected stage
    enter_other (JobSink.outcome d) e other k = ground (arith, ap (λ u. sink_channel u == c) e)
    enter_other (JobSink.events d) e other k = ground (arith, ap (λ u. sink_channel u == c) e)

    enter_own :
        (sink : JobSink)
        → a.job.sink ≡ sink
        → (sink_channel sink == c) ≡ true
        → Owns c waits sink s
        → KeepsOrdered c s (started_on sink)
    unfolding announce_start ordered is_connected
    enter_own (JobSink.outcome d) e same own k =
        let (none_left, opened, known) = own same in
        ground (arith, ap (λ u. fits_active u (stage_of c s)) e)
    enter_own (JobSink.events d) e same own k =
        let channel : d ≡ c = ground arith in
        subst (λ x. ordered c (started_on (JobSink.events x)) ≡ true) (sym channel)
          (enter_streaming (e ∙ ap JobSink.events channel) (λ _. own same) k)

    enter-KeepsOrdered :
        (sink : JobSink)
        → a.job.sink ≡ sink
        → Owns c waits sink s
        → KeepsOrdered c s (started_on sink)
    enter-KeepsOrdered sink e own k = elim (Bool-cases (sink_channel sink == c)) [
      | inl same ↦ enter_own sink e same own k
      | inr other ↦ enter_other sink e other k
    ]

  start_accepted-KeepsOrdered :
      (job : Job C) (handle : ℕ) (d : ApprovalDecision) (a : Accepted) (s : Broker C E)
      → Owns c waits job.sink s
      → KeepsOrdered c s (start_accepted job handle d a s)
  unfolding start_accepted
  start_accepted-KeepsOrdered job handle d (session, err e) s own k =
      start_refused-KeepsOrdered job s own d k
  start_accepted-KeepsOrdered job handle d (session, ok _) s own k =
      enter-KeepsOrdered
        (record { job = record job { session = session }; cancel = handle; decision = d }) s
        job.sink refl own k

  pub start_execution-KeepsOrdered :
      (job : Job C) (handle : ℕ) (d : ApprovalDecision) (s : Broker C E)
      → Owns c waits job.sink s
      → KeepsOrdered c s (start_execution job handle d s)
  unfolding start_execution
  start_execution-KeepsOrdered job handle d s own k = ground (
    arith,
    start_cancelled-KeepsOrdered job s own d,
    start_accepted-KeepsOrdered job handle d (Session.accept job.session SessionEvent.started) s
        own,
  )
