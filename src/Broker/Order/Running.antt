-- ===== src/Broker/Order/Running.antt =====
-- The order of messages while a job is in the runtime of crates/wasi-runtime/src/broker.rs.
use ferrous_runtime.Prelude.{
  ◌≡◌, ◌==◌, ◌≤◌, ℕ, List, Option, true, not, some, none, ltb, arith, inl, inr, Bool-cases, refl,
  sym, subst, ok, err, ap, Result, ◌∙◌,
}
use ferrous_runtime.Command.Session.{SessionEvent, Stream}
use ferrous_runtime.Command.Request.{invalid_transition}
use ferrous_runtime.Runtime.Store.{RuntimeError, WasiOutput}
use ferrous_runtime.Broker.State.{
  Broker, Message, JobSink, Active, ChannelId, Terminal, sink_channel, is_connected, release,
  record_entry, send,
}
use ferrous_runtime.Broker.Worker.{
  complete, stream_to, finish_active, panic_active, final_message, outcome_of, event_of,
}
use ferrous_runtime.Broker.Tally.{tally, one_if, in_runtime}
use ferrous_runtime.Broker.Order.{
  Stage, signal, after, stage, is_broken, fits_active, active_fits, stage_of, ordered, KeepsOrdered,
  Owns,
}
use ferrous_runtime.Broker.Order.Send.{
  is_open, Owns_weaken, send-KeepsOrdered, send_terminal-KeepsOrdered, send_other,
}

fits_active_open : (sink : JobSink) (st : Stage) → fits_active sink st ≡ true → is_open st ≡ true
fits_active_open (JobSink.outcome d) st h = ground arith
fits_active_open (JobSink.events d) st h = ground arith

-- The message of a finished run fits what its receiver knows.
final_message-fits :
    {E : Type 0} (sink : JobSink) (r : Result (RuntimeError E) WasiOutput) (st : Stage)
    → fits_active sink st ≡ true
    → not (is_broken (after st (signal (final_message sink r)))) ≡ true
unfolding final_message outcome_of event_of after
final_message-fits (JobSink.outcome d) (ok output) st h = ground arith
final_message-fits (JobSink.outcome d) (err e) st h = ground arith
final_message-fits (JobSink.events d) (ok output) st h = ground arith
final_message-fits (JobSink.events d) (err e) st h = ground arith

module _ {C E : Type 0} (c : ChannelId) where
  module _ (a : Active C) (s : Broker C E) (e : s.active ≡ some a) where
    abbrev left : Broker C E
    left = record s { active = none }

    left-KeepsOrdered : KeepsOrdered c s left
    unfolding ordered is_connected
    left-KeepsOrdered k = ground arith

    left-Owns :
        tally c s ≤ one_if (ltb c s.next_channel)
        → ordered c s ≡ true
        → Owns c (fits_active a.job.sink) a.job.sink left
    unfolding ordered is_connected tally
    left-Owns once k same = (
      ground (arith, ap (in_runtime c) e),
      ground (arith, ap (in_runtime c) e),
      λ h. ground (arith, ap (active_fits c (stage_of c s)) e),
    )

    finished-KeepsOrdered :
        (r : Result (RuntimeError E) WasiOutput)
        → tally c s ≤ one_if (ltb c s.next_channel)
        → KeepsOrdered c s (finish_active r (some a) s)
    unfolding finish_active complete release record_entry ordered is_connected
    finished-KeepsOrdered r once k =
        let sink = a.job.sink in
        send-KeepsOrdered c sink (final_message sink r) left
          (Owns_weaken c (fits_active sink) _ sink left (final_message-fits sink r)
            (left-Owns once k))
          (left-KeepsOrdered k)

    panicked-KeepsOrdered :
        tally c s ≤ one_if (ltb c s.next_channel) → KeepsOrdered c s (panic_active (some a) s)
    unfolding panic_active complete release record_entry ordered is_connected
    panicked-KeepsOrdered once k =
        let sink = a.job.sink in
        send_terminal-KeepsOrdered c sink
          (Terminal.denied_with (invalid_transition "worker panic while executing session")) left
          (Owns_weaken c (fits_active sink) is_open sink left (fits_active_open sink)
            (left-Owns once k))
          (left-KeepsOrdered k)

    -- Output on the channel of the running job.
    shown_here :
        (stream : Stream) (bytes : List ℕ)
        → a.job.sink ≡ JobSink.events c
        → KeepsOrdered c s (send c (Message.event (SessionEvent.output stream bytes)) s).0
    unfolding send ordered is_connected stage after
    shown_here stream bytes f k = ground (
      arith,
      ap (active_fits c (stage_of c s)) e,
      ap sink_channel f,
      ap (λ u. fits_active u (stage_of c s)) f,
    )

    shown-KeepsOrdered :
        (d : ChannelId) (stream : Stream) (bytes : List ℕ)
        → a.job.sink ≡ JobSink.events d
        → KeepsOrdered c s (send d (Message.event (SessionEvent.output stream bytes)) s).0
    shown-KeepsOrdered d stream bytes f k =
        let m : Message E = Message.event (SessionEvent.output stream bytes) in
        elim (Bool-cases (d == c)) [
          | inl same ↦
              let channel : d ≡ c = ground arith in
              subst (λ x. ordered c (send x m s).0 ≡ true) (sym channel)
                (shown_here stream bytes (f ∙ ap JobSink.events channel) k)
          | inr other ↦ send_other c d m s other ∙ k
        ]

    streamed-KeepsOrdered :
        (sink : JobSink) (stream : Stream) (bytes : List ℕ)
        → a.job.sink ≡ sink
        → KeepsOrdered c s (stream_to (some a) stream bytes s)
    unfolding stream_to
    streamed-KeepsOrdered (JobSink.outcome d) stream bytes f k = rw (f, stream_to) k
    streamed-KeepsOrdered (JobSink.events d) stream bytes f k =
        rw (f, stream_to) (shown-KeepsOrdered d stream bytes f k)

  pub stream_to-KeepsOrdered :
      (o : Option (Active C)) (stream : Stream) (bytes : List ℕ) (s : Broker C E)
      → s.active ≡ o
      → KeepsOrdered c s (stream_to o stream bytes s)
  unfolding stream_to
  stream_to-KeepsOrdered none stream bytes s e k = k
  stream_to-KeepsOrdered (some a) stream bytes s e k =
      streamed-KeepsOrdered a s e a.job.sink stream bytes refl k

  pub finish_active-KeepsOrdered :
      (o : Option (Active C)) (r : Result (RuntimeError E) WasiOutput) (s : Broker C E)
      → s.active ≡ o
      → tally c s ≤ one_if (ltb c s.next_channel)
      → KeepsOrdered c s (finish_active r o s)
  unfolding finish_active
  finish_active-KeepsOrdered none r s e once k = k
  finish_active-KeepsOrdered (some a) r s e once k = finished-KeepsOrdered a s e r once k

  pub panic_active-KeepsOrdered :
      (o : Option (Active C)) (s : Broker C E)
      → s.active ≡ o
      → tally c s ≤ one_if (ltb c s.next_channel)
      → KeepsOrdered c s (panic_active o s)
  unfolding panic_active
  panic_active-KeepsOrdered none s e once k = k
  panic_active-KeepsOrdered (some a) s e once k = panicked-KeepsOrdered a s e once k
