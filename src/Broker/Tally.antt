-- ===== src/Broker/Tally.antt =====
-- How many terminal messages a channel of crates/wasi-runtime/src/broker.rs has received, and how
-- many jobs still hold it.
pub mod Calls
pub mod Worker
use ferrous_runtime.Prelude.{
  ◌==◌, if◌then◌else◌, Bool, ℕ, List, Option, false, true, ◌∷◌, some, ◌+◌, ◌++◌, ◌≤◌, ◌≡◌, ◌&&◌, [],
  arith, none,
}
use ferrous_runtime.HashMap
use ferrous_runtime.Command.Session.{SessionEvent}
use ferrous_runtime.Broker.State.{
  Broker, BrokerOutcome, Message, Job, PendingJob, Active, JobSink, ChannelId, sink_channel,
}

-- A message after which the source promises no other.
abbrev pub is_terminal_outcome : {E : Type 0} → BrokerOutcome E → Bool
is_terminal_outcome (BrokerOutcome.pending_approval reason) = false
is_terminal_outcome _ = true

abbrev pub is_terminal_event : SessionEvent → Bool
is_terminal_event (SessionEvent.exited code) = true
is_terminal_event SessionEvent.cancelled = true
is_terminal_event SessionEvent.denied = true
is_terminal_event SessionEvent.unsupported = true
is_terminal_event _ = false

abbrev pub is_terminal : {E : Type 0} → Message E → Bool
is_terminal (Message.outcome o) = is_terminal_outcome o
is_terminal (Message.event e) = is_terminal_event e

abbrev pub one_if : Bool → ℕ
one_if true = 1
one_if false = 0

abbrev pub holds : ChannelId → JobSink → ℕ
holds c sink = one_if (sink_channel sink == c)

unfoldable pub terminals : {E : Type 0} → ChannelId → List (ChannelId × Message E) → ℕ
terminals c [] = 0
terminals c ((d, m) ∷ sent) = one_if (is_terminal m && d == c) + terminals c sent

unfoldable pub queued : {C : Type 0} → ChannelId → List (Job C) → ℕ
queued c [] = 0
queued c (job ∷ jobs) = holds c job.sink + queued c jobs

unfoldable pub parked : {C : Type 0} → ChannelId → List (ℕ × PendingJob C) → ℕ
parked c [] = 0
parked c ((id, p) ∷ rest) = holds c p.job.sink + parked c rest

abbrev pub in_runtime : {C : Type 0} → ChannelId → Option (Active C) → ℕ
in_runtime c none = 0
in_runtime c (some a) = holds c a.job.sink

-- The terminal messages of a channel, with those that its jobs can still send.
unfoldable pub tally : {C E : Type 0} → ChannelId → Broker C E → ℕ
tally c s = terminals c s.sent + queued c s.queue + parked c s.pending + in_runtime c s.active

-- `s'` has opened no channel, and the tally of `c` has grown by `n` at most.
abbrev pub Within : {C E : Type 0} → ChannelId → ℕ → Broker C E → Broker C E → Type 0
Within c n s s' = (tally c s' ≤ tally c s + n) × (s'.next_channel ≡ s.next_channel)

pub one_if-and-le : (a b : Bool) → one_if (a && b) ≤ one_if b
one_if-and-le a b = ground arith

pub queued-append :
    {C : Type 0} (c : ChannelId) (jobs : List (Job C)) (job : Job C)
    → queued c (jobs ++ job ∷ []) ≡ queued c jobs + holds c job.sink
unfolding queued
queued-append c [] job = omega arith
queued-append c (j ∷ jobs) job = omega (arith, queued-append c jobs job)

pub parked-remove-le :
    {C : Type 0} (c k : ℕ) (m : List (ℕ × PendingJob C))
    → parked c (HashMap.remove k m) ≤ parked c m
unfolding parked HashMap.remove
parked-remove-le c k [] = omega arith
parked-remove-le c k ((id, p) ∷ m) = ground (arith, parked-remove-le c k m)

-- A job that is taken out of the parked ones is not counted among them any more.
pub parked-remove :
    {C : Type 0} (c k : ℕ) (m : List (ℕ × PendingJob C)) (p : PendingJob C)
    → HashMap.get k m ≡ some p
    → parked c (HashMap.remove k m) + holds c p.job.sink ≤ parked c m
unfolding parked HashMap.remove HashMap.get
parked-remove c k [] p h = absurd (ground arith)
parked-remove c k ((id, q) ∷ m) p h = ground (arith, parked-remove c k m p, parked-remove-le c k m)

pub parked-insert-le :
    {C : Type 0} (c k : ℕ) (p : PendingJob C) (m : List (ℕ × PendingJob C))
    → parked c (HashMap.insert k p m) ≤ parked c m + holds c p.job.sink
unfolding parked HashMap.insert
parked-insert-le c k p m = omega (arith, parked-remove-le c k m)
