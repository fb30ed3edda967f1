-- ===== src/Broker/Accounted/Running.antt =====
-- Who owes an end while a job is in the runtime of crates/wasi-runtime/src/broker.rs.
use ferrous_runtime.Prelude.{◌≡◌, ℕ, List, Option, some, none, true, arith, ap, Result}
use ferrous_runtime.Command.Request.{invalid_transition}
use ferrous_runtime.Command.Session.{Stream}
use ferrous_runtime.Runtime.Store.{RuntimeError, WasiOutput}
use ferrous_runtime.Broker.State.{
  Broker, JobSink, Active, ChannelId, Terminal, send, release, record_entry, is_connected,
}
use ferrous_runtime.Broker.Worker.{
  complete, stream_to, finish_active, panic_active, final_message, outcome_of, event_of,
}
use ferrous_runtime.Broker.Tally.{tally, terminals, in_runtime, holds, is_terminal}
use ferrous_runtime.Broker.Accounted.{owes, Pays}
use ferrous_runtime.Broker.Accounted.Calls.{end-Pays, send_terminal-Pays}

final_message-IsTerminal :
    {E : Type 0} (sink : JobSink) (r : Result (RuntimeError E) WasiOutput)
    → is_terminal (final_message sink r) ≡ true
unfolding final_message outcome_of event_of
final_message-IsTerminal (JobSink.outcome d) r = ground arith
final_message-IsTerminal (JobSink.events d) r = ground arith

module _ {C E : Type 0} (c : ChannelId) where
  pub stream_to-Pays :
      (o : Option (Active C)) (stream : Stream) (bytes : List ℕ) (s : Broker C E)
      → Pays c 0 s (stream_to o stream bytes s)
  unfolding stream_to send owes tally terminals is_connected
  stream_to-Pays none stream bytes s h = h
  stream_to-Pays (some a) stream bytes s h = ground arith

  module _ (a : Active C) (s : Broker C E) (e : s.active ≡ some a) where
    left-Owes : owes c 0 s ≡ true → owes c (holds c a.job.sink) (record s { active = none }) ≡ true
    unfolding owes is_connected tally
    left-Owes h = ground (arith, ap (in_runtime c) e)

    finished-Pays :
        (r : Result (RuntimeError E) WasiOutput) → Pays c 0 s (finish_active r (some a) s)
    unfolding finish_active complete release record_entry owes is_connected tally
    finished-Pays r h =
        end-Pays c a.job.sink (final_message a.job.sink r) (record s { active = none })
          (final_message-IsTerminal a.job.sink r) (left-Owes h)

    panicked-Pays : Pays c 0 s (panic_active (some a) s)
    unfolding panic_active complete release record_entry owes is_connected tally
    panicked-Pays h =
        send_terminal-Pays c a.job.sink
          (Terminal.denied_with (invalid_transition "worker panic while executing session"))
          (record s { active = none }) (left-Owes h)

  pub finish_active-Pays :
      (o : Option (Active C)) (r : Result (RuntimeError E) WasiOutput) (s : Broker C E)
      → s.active ≡ o
      → Pays c 0 s (finish_active r o s)
  unfolding finish_active
  finish_active-Pays none r s e h = h
  finish_active-Pays (some a) r s e h = finished-Pays a s e r h

  pub panic_active-Pays :
      (o : Option (Active C)) (s : Broker C E) → s.active ≡ o → Pays c 0 s (panic_active o s)
  unfolding panic_active
  panic_active-Pays none s e h = h
  panic_active-Pays (some a) s e h = panicked-Pays a s e h
