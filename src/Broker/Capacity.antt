-- ===== src/Broker/Capacity.antt =====
-- That the sessions of crates/wasi-runtime/src/broker.rs are no more than its capacity: each has a handle.
pub mod Calls
pub mod Worker
pub mod Whole
use ferrous_runtime.Prelude.{
  ◌≡◌, ◌==◌, ◌≤◌, ◌+◌, ◌∷◌, [], ℕ, List, Option, none, some, arith, if◌then◌else◌,
}
use ferrous_runtime.HashMap
use ferrous_runtime.Broker.State.{
  Broker, Active, ChannelId, Message, JobSink, Terminal, Job, send, send_terminal, sink_channel,
  terminal_message, release, ApprovalDecision, AuditOutcome, record_entry,
}
use ferrous_runtime.Broker.Calls.{close_parked}
use ferrous_runtime.Broker.Accounted.{queue_ids, keys}
use ferrous_runtime.Broker.Tally.{one_if}

abbrev pub runs_id : {C : Type 0} → ℕ → Option (Active C) → ℕ
runs_id i none = 0
runs_id i (some a) = one_if (a.job.request.id == i)

pub keys-remove :
    {V : Type 0} (i k : ℕ) (m : List (ℕ × V))
    → keys i (HashMap.remove k m) ≡ (if k == i then 0 else keys i m)
unfolding keys HashMap.remove
keys-remove i k [] = ground arith
keys-remove i k ((j, v) ∷ m) = ground (arith, keys-remove i k m)

module _ {C E : Type 0} (i : ℕ) where
  -- The sessions under an id.
  unfoldable pub present : Broker C E → ℕ
  present s = queue_ids i s.queue + keys i s.pending + runs_id i s.active

  -- The sessions under an id and its handles are as they were.
  abbrev pub Same : Broker C E → Broker C E → Type 0
  Same s t = (present t ≡ present s) × (keys i t.handles ≡ keys i s.handles)

  -- From `s` and `n` jobs under the id that someone holds, no session is made; and if there was one at
  -- most, with a handle, then there is still a handle for it.
  abbrev pub Placed : ℕ → Broker C E → Broker C E → Type 0
  Placed n s s' =
      (present s' ≤ present s + n)
      × (present s + n ≤ 1 → present s + n ≤ keys i s.handles → present s' ≤ keys i s'.handles)

  pub send-Same : (d : ChannelId) (m : Message E) (s : Broker C E) → Same s (send d m s).0
  unfolding send present
  send-Same d m s = ground arith

  pub send_terminal-Same :
      (sink : JobSink) (t : Terminal) (s : Broker C E) → Same s (send_terminal sink t s)
  unfolding send_terminal
  send_terminal-Same sink t s = send-Same (sink_channel sink) (terminal_message sink t) s

  -- A job ends, and its handle is released.
  pub ended-Placed :
      (id : ℕ) (s t : Broker C E) → Same s t → Placed (one_if (id == i)) s (release id t)
  unfolding release present
  ended-Placed id s t (p, h) = ground (arith, keys-remove i id t.handles)

  pub close_parked-Placed :
      (id : ℕ) (job : Job C) (t : Terminal) (d : ApprovalDecision) (o : AuditOutcome)
      (s : Broker C E)
      → Placed (one_if (id == i)) s (close_parked id job t d o s)
  unfolding close_parked record_entry present release
  close_parked-Placed id job t d o s =
      ended-Placed id s (send_terminal job.sink t s) (send_terminal-Same job.sink t s)
