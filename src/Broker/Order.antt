-- ===== src/Broker/Order.antt =====
-- The order of the messages on a channel of crates/wasi-runtime/src/broker.rs, as the comment of
-- `submit_streaming` promises it, and how far each job has come in it.
pub mod Send
pub mod Calls
pub mod Start
pub mod Worker
pub mod Running
pub mod Whole
pub mod Apart
use ferrous_runtime.Prelude.{
  ◌≡◌, ◌==◌, ◌&&◌, ◌||◌, ◌∷◌, ◌+◌, [], ℕ, List, Bool, Option, true, false, not, all, some, none,
  ltb, if◌then◌else◌,
}
use ferrous_runtime.Command.Session.{SessionEvent}
use ferrous_runtime.Broker.State.{
  Broker, BrokerOutcome, Message, Job, PendingJob, Active, JobSink, ChannelId, sink_channel,
  is_connected,
}
use ferrous_runtime.Broker.Tally.{queued, parked, in_runtime}
use ferrous_runtime.Broker.Worker.{is_approved}

-- What a message says of its session. Only a guest that ran `exits`, so it must have started.
pub data Signal : Type 0 where
  asks starts shows exits ends : Signal

abbrev pub signal : {E : Type 0} → Message E → Signal
signal (Message.outcome (BrokerOutcome.pending_approval reason)) = asks
signal (Message.outcome _) = ends
signal (Message.event (SessionEvent.pending_approval reason)) = asks
signal (Message.event SessionEvent.started) = starts
signal (Message.event (SessionEvent.output stream bytes)) = shows
signal (Message.event (SessionEvent.exited code)) = exits
signal (Message.event SessionEvent.unsupported) = exits
signal (Message.event SessionEvent.cancelled) = ends
signal (Message.event SessionEvent.denied) = ends

-- How far the receiver has been told.
pub data Stage : Type 0 where
  fresh asked running ended broken : Stage

-- At most one question, then at most one start, output, and one end. Anything else breaks the order.
unfoldable pub after : Stage → Signal → Stage
after fresh asks = asked
after fresh starts = running
after fresh ends = ended
after asked starts = running
after asked ends = ended
after running shows = running
after running exits = ended
after running ends = ended
after _ _ = broken

unfoldable pub stage : {E : Type 0} → ChannelId → List (ChannelId × Message E) → Stage
stage c [] = fresh
stage c ((d, m) ∷ sent) =
    let before = stage c sent in if d == c then after before (signal m) else before

abbrev pub is_end : Signal → Bool
is_end ends = true
is_end _ = false

abbrev pub is_question : Signal → Bool
is_question asks = true
is_question _ = false

-- How far the receiver has been told, without the messages that the test picks.
unfoldable pub stage_without :
    {E : Type 0} → (Signal → Bool) → ChannelId → List (ChannelId × Message E) → Stage
stage_without leaves c [] = fresh
stage_without leaves c ((d, m) ∷ sent) =
    let before = stage_without leaves c sent in
    if d == c && not (leaves (signal m)) then after before (signal m) else before

abbrev pub is_fresh : Stage → Bool
is_fresh fresh = true
is_fresh _ = false

abbrev pub is_asked : Stage → Bool
is_asked asked = true
is_asked _ = false

abbrev pub is_running : Stage → Bool
is_running running = true
is_running _ = false

abbrev pub is_broken : Stage → Bool
is_broken broken = true
is_broken _ = false

-- What the receiver of a queued job knows.
abbrev pub fits_queued : {C : Type 0} → Job C → Stage → Bool
fits_queued job st = if is_approved job.admission then is_asked st else is_fresh st

-- What the receiver of a job in the runtime knows. A capturing sink is not told of the start.
abbrev pub fits_active : JobSink → Stage → Bool
fits_active (JobSink.outcome d) st = is_fresh st || is_asked st
fits_active (JobSink.events d) st = is_running st

abbrev pub queued_fits : {C : Type 0} → ChannelId → Stage → Job C → Bool
queued_fits c st job = not (sink_channel job.sink == c) || fits_queued job st

abbrev pub parked_fits : {C : Type 0} → ChannelId → Stage → ℕ × PendingJob C → Bool
parked_fits c st (id, p) = not (sink_channel p.job.sink == c) || is_asked st

abbrev pub active_fits : {C : Type 0} → ChannelId → Stage → Option (Active C) → Bool
active_fits c st none = true
active_fits c st (some a) = not (sink_channel a.job.sink == c) || fits_active a.job.sink st

module _ {C E : Type 0} (c : ChannelId) where
  abbrev pub stage_of : Broker C E → Stage
  stage_of s = stage c s.sent

  -- The jobs that hold the channel.
  abbrev pub holders : Broker C E → ℕ
  holders s = queued c s.queue + parked c s.pending + in_runtime c s.active

  -- Every job that holds the channel has come as far as the receiver was told.
  abbrev pub fits : Stage → Broker C E → Bool
  fits st s =
      all (queued_fits c st) s.queue
      && all (parked_fits c st) s.pending
      && active_fits c st s.active

  -- The order is kept so far, and it stays possible while the receiver is there.
  unfoldable pub ordered : Broker C E → Bool
  ordered s =
      not (is_broken (stage_of s))
      && (not (is_connected c s) || fits (stage_of s) s)
      && (ltb c s.next_channel || is_fresh (stage_of s))

  abbrev pub KeepsOrdered : Broker C E → Broker C E → Type 0
  KeepsOrdered s s' = ordered s ≡ true → ordered s' ≡ true

  -- No other job holds the channel of the sink, which is open, and its receiver knows what the test says.
  abbrev pub Owns : (Stage → Bool) → JobSink → Broker C E → Type 0
  Owns test sink s =
      (sink_channel sink == c) ≡ true
      → (holders s ≡ 0)
        × (ltb c s.next_channel ≡ true)
        × (is_connected c s ≡ true → test (stage_of s) ≡ true)
