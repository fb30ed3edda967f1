-- ===== src/Broker/State.antt =====
-- The data of crates/wasi-runtime/src/broker.rs, and the small operations on its shared state.
use ferrous_runtime.Prelude.{
  ◌==◌, if◌then◌else◌, ℕ, List, Bool, Option, ◌++◌, not, ◌∷◌, [], any, true, ltb, false, length,
  drop, ◌-◌,
}
use ferrous_runtime.Cancel
use ferrous_runtime.HashMap
use ferrous_runtime.Command.Session.{SessionEvent, SessionState}
use ferrous_runtime.Command.Request.{
  CommandError, ApprovalReason, CommandRequest, invalid_transition, Actor,
}
use ferrous_runtime.Runtime.Store.{RuntimeError, WasiOutput}
use ferrous_runtime.Text.{Text}

-- A channel made by `mpsc::channel()`.
abbrev pub ChannelId : Type 0
ChannelId = ℕ

pub data BrokerError (E : Type 0) : Type 0 where
  worker_stopped not_wasi queue_full invalid_capacity : BrokerError E
  unknown_session not_pending_approval : ℕ → BrokerError E
  invalid_request : CommandError → BrokerError E
  runtime : RuntimeError E → BrokerError E

pub data BrokerOutcome (E : Type 0) : Type 0 where
  completed : WasiOutput → BrokerOutcome E
  pending_approval : ApprovalReason → BrokerOutcome E
  cancelled : BrokerOutcome E
  denied : CommandError → BrokerOutcome E
  failed : RuntimeError E → BrokerOutcome E

pub data ApprovalDecision : Type 0 where
  auto_approved approved denied timed_out cancelled : ApprovalDecision

pub data AuditOutcome : Type 0 where
  completed : ℕ → AuditOutcome
  cancelled denied failed : AuditOutcome

pub record AuditEntry : Type 0 where
  pub id : ℕ
  pub actor : Actor
  pub program : Text
  pub decision : ApprovalDecision
  pub outcome : AuditOutcome

pub data JobSink : Type 0 where
  outcome events : ChannelId → JobSink

-- `C` is the type of compiled components, which only the runtime looks into.
pub record Job (C : Type 0) : Type 0 where
  pub request : CommandRequest
  pub compiled : C
  pub sink : JobSink
  pub session : SessionState
  pub admission : ApprovalDecision

-- Times are in milliseconds.
pub record PendingJob (C : Type 0) : Type 0 where
  pub job : Job C
  pub deadline : ℕ

-- What is sent on the channel of a session.
pub data Message (E : Type 0) : Type 0 where
  outcome : BrokerOutcome E → Message E
  event : SessionEvent → Message E

-- The job inside the runtime, between the two halves of `process_job`, with the decision that its
-- audit entry will name.
pub record Active (C : Type 0) : Type 0 where
  pub job : Job C
  pub cancel : Cancel.CancelHandle
  pub decision : ApprovalDecision

-- `ActionBroker` and `BrokerState`, the queue between the callers and the worker, and the channels.
pub record Broker (C E : Type 0) : Type 0 where
  pub capacity : ℕ
  pub approval_timeout : ℕ
  pub handles : List (ℕ × Cancel.CancelHandle)
  pub pending : List (ℕ × PendingJob C)
  pub audit : List AuditEntry  -- oldest first
  pub flags : Cancel.Flags
  pub queue : List (Job C)  -- oldest first
  pub worker_stopped : Bool
  pub active : Option (Active C)
  pub next_channel : ChannelId
  pub sent : List (ChannelId × Message E)  -- newest first
  pub dropped : List ChannelId  -- channels whose receiver is gone

abbrev pub default_max_outstanding_sessions : ℕ
default_max_outstanding_sessions = 64

abbrev pub default_approval_timeout : ℕ
default_approval_timeout = 30_000

abbrev pub default_max_audit_entries : ℕ
default_max_audit_entries = 4096

-- The push and the drain of `BrokerState::record`.
unfoldable pub push_entry : AuditEntry → List AuditEntry → List AuditEntry
push_entry entry audit =
    let pushed = audit ++ entry ∷ [] in
    if ltb default_max_audit_entries (length pushed)
    then drop (length pushed - default_max_audit_entries) pushed
    else pushed

abbrev pub sink_channel : JobSink → ChannelId
sink_channel (outcome channel) = channel
sink_channel (events channel) = channel

pub data Terminal : Type 0 where
  cancelled denied : Terminal
  denied_with : CommandError → Terminal

-- The message of `send_terminal` for a sink.
unfoldable pub terminal_message : {E : Type 0} → JobSink → Terminal → Message E
terminal_message (JobSink.outcome c) Terminal.cancelled = Message.outcome BrokerOutcome.cancelled
terminal_message (JobSink.outcome c) Terminal.denied =
    Message.outcome (BrokerOutcome.denied (invalid_transition "request denied by policy"))
terminal_message (JobSink.outcome c) (Terminal.denied_with e) =
    Message.outcome (BrokerOutcome.denied e)
terminal_message (JobSink.events c) Terminal.cancelled = Message.event SessionEvent.cancelled
terminal_message (JobSink.events c) Terminal.denied = Message.event SessionEvent.denied
terminal_message (JobSink.events c) (Terminal.denied_with e) = Message.event SessionEvent.denied

-- The audit entry of a job, under an id.
abbrev pub entry_of : {C : Type 0} → ℕ → Job C → ApprovalDecision → AuditOutcome → AuditEntry
entry_of id job decision ended = record {
  id = id;
  actor = job.request.actor;
  program = job.request.program;
  decision = decision;
  outcome = ended;
}

module _ {C E : Type 0} where
  unfoldable pub record_entry : AuditEntry → Broker C E → Broker C E
  record_entry entry s = record s { audit = push_entry entry s.audit }

  -- `handles.lock().remove(&id)`.
  unfoldable pub release : ℕ → Broker C E → Broker C E
  release id s = record s { handles = HashMap.remove id s.handles }

  unfoldable pub is_connected : ChannelId → Broker C E → Bool
  is_connected channel s = not (any (λ c. c == channel) s.dropped)

  -- `Sender::send`, with its `is_ok()`.
  unfoldable pub send : ChannelId → Message E → Broker C E → Broker C E × Bool
  unfolding is_connected
  send channel message s =
      if is_connected channel s
      then (record s { sent = (channel, message) ∷ s.sent }, true)
      else (s, false)

  unfoldable pub send_terminal : JobSink → Terminal → Broker C E → Broker C E
  unfolding send terminal_message
  send_terminal sink terminal s = (send (sink_channel sink) (terminal_message sink terminal) s).0
