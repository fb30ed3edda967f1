-- ===== src/Broker/Order/Send.antt =====
-- The order of messages where crates/wasi-runtime/src/broker.rs sends one.
use ferrous_runtime.Prelude.{
  ◌≡◌, ◌==◌, ◌||◌, ◌∷◌, [], ℕ, List, Bool, Option, true, false, not, all, some, none, ltb, arith,
  refl, subst, sym, inl, inr, Bool-cases, ◌∙◌,
}
use ferrous_runtime.Broker.State.{
  Broker, Message, Job, PendingJob, Active, JobSink, ChannelId, Terminal, sink_channel,
  is_connected, send, send_terminal, terminal_message, release, record_entry, ApprovalDecision,
  AuditOutcome,
}
use ferrous_runtime.Broker.Calls.{close_parked}
use ferrous_runtime.Broker.Tally.{queued, parked, in_runtime}
use ferrous_runtime.Broker.Order.{
  Stage, signal, after, stage, is_fresh, is_asked, is_running, is_broken, queued_fits, parked_fits,
  active_fits, stage_of, holders, fits, ordered, KeepsOrdered, Owns, ends,
}

-- Who holds no channel fits any stage of it.
pub queued_fits_none :
    {C : Type 0} (c : ChannelId) (st : Stage) (jobs : List (Job C))
    → queued c jobs ≡ 0
    → all (queued_fits c st) jobs ≡ true
unfolding queued
queued_fits_none c st [] h = refl
queued_fits_none c st (job ∷ jobs) h = ground (arith, queued_fits_none c st jobs)

pub parked_fits_none :
    {C : Type 0} (c : ChannelId) (st : Stage) (m : List (ℕ × PendingJob C))
    → parked c m ≡ 0
    → all (parked_fits c st) m ≡ true
unfolding parked
parked_fits_none c st [] h = refl
parked_fits_none c st ((id, p) ∷ m) h = ground (arith, parked_fits_none c st m)

pub active_fits_none :
    {C : Type 0} (c : ChannelId) (st : Stage) (o : Option (Active C))
    → in_runtime c o ≡ 0
    → active_fits c st o ≡ true
active_fits_none c st none h = refl
active_fits_none c st (some a) h = ground arith

-- A stage at which the session may end.
abbrev pub is_open : Stage → Bool
is_open st = is_fresh st || is_asked st || is_running st

signal-terminal_message :
    (E : Type 0) (sink : JobSink) (t : Terminal) → signal (terminal_message {E = E} sink t) ≡ ends
unfolding terminal_message
signal-terminal_message E (JobSink.outcome d) t = ground arith
signal-terminal_message E (JobSink.events d) t = ground arith

open_ends : (st : Stage) → is_open st ≡ true → not (is_broken (after st ends)) ≡ true
unfolding after
open_ends st h = ground arith

module _ {C E : Type 0} (c : ChannelId) where
  pub fits_none : (st : Stage) (s : Broker C E) → holders c s ≡ 0 → fits c st s ≡ true
  fits_none st s h = ground (
    arith,
    queued_fits_none c st s.queue (omega arith),
    parked_fits_none c st s.pending (omega arith),
    active_fits_none c st s.active (omega arith),
  )

  -- A message on another channel.
  pub send_other :
      (d : ChannelId) (m : Message E) (s : Broker C E)
      → (d == c) ≡ false
      → ordered c (send d m s).0 ≡ ordered c s
  unfolding send ordered stage
  send_other d m s h = ground arith

  send_own :
      (m : Message E) (s : Broker C E)
      → holders c s ≡ 0
      → ltb c s.next_channel ≡ true
      → (is_connected c s ≡ true → is_broken (after (stage_of c s) (signal m)) ≡ false)
      → KeepsOrdered c s (send c m s).0
  unfolding send ordered stage is_connected
  send_own m s none_left opened possible k =
      ground (arith, fits_none (after (stage_of c s) (signal m)) s none_left)

  -- A message of the only job that holds the channel.
  pub send-KeepsOrdered :
      (sink : JobSink) (m : Message E) (s : Broker C E)
      → Owns c (λ st. not (is_broken (after st (signal m)))) sink s
      → KeepsOrdered c s (send (sink_channel sink) m s).0
  send-KeepsOrdered sink m s own k = elim (Bool-cases (sink_channel sink == c)) [
    | inl same ↦
        let (none_left, opened, possible) = own same in
        let channel : sink_channel sink ≡ c = ground arith in
        subst (λ d. ordered c (send d m s).0 ≡ true) (sym channel)
          (send_own m s none_left opened (λ h. ground (arith, possible h)) k)
    | inr other ↦ send_other (sink_channel sink) m s other ∙ k
  ]

  pub Owns_weaken :
      (p q : Stage → Bool) (sink : JobSink) (s : Broker C E)
      → ((st : Stage) → p st ≡ true → q st ≡ true)
      → Owns c p sink s
      → Owns c q sink s
  Owns_weaken p q sink s w own same =
      let (none_left, opened, known) = own same in
      (none_left, opened, λ h. w (stage_of c s) (known h))

  -- The message with which a session ends.
  pub send_terminal-KeepsOrdered :
      (sink : JobSink) (t : Terminal) (s : Broker C E)
      → Owns c is_open sink s
      → KeepsOrdered c s (send_terminal sink t s)
  unfolding send_terminal
  send_terminal-KeepsOrdered sink t s own =
      let possible : (st : Stage)
          → is_open st ≡ true
          → not (is_broken (after st (signal (terminal_message {E = E} sink t)))) ≡ true =
        λ st h.
          subst (λ g. not (is_broken (after st g)) ≡ true) (sym (signal-terminal_message E sink t))
            (open_ends st h) in
      send-KeepsOrdered sink (terminal_message sink t) s (Owns_weaken is_open _ sink s possible own)

  pub close_parked-KeepsOrdered :
      (id : ℕ) (job : Job C) (t : Terminal) (d : ApprovalDecision) (o : AuditOutcome)
      (s : Broker C E)
      → Owns c is_open job.sink s
      → KeepsOrdered c s (close_parked id job t d o s)
  unfolding close_parked release record_entry ordered is_connected
  close_parked-KeepsOrdered id job t d o s own k = send_terminal-KeepsOrdered job.sink t s own k
