-- ===== src/Tests/Locks.antt =====
-- The interleavings of the broker at concrete inputs.
use ferrous_runtime.Prelude.{◌≡◌, ◌∷◌, ◌⊎◌, ◌≤◌, ◌+◌, Memᴰ, List, ℕ, some, [], refl}
use ferrous_runtime.HashMap
use ferrous_runtime.Cancel
use ferrous_runtime.Command.Session
use ferrous_runtime.Command.Request.{validate, contains_nul}
use ferrous_runtime.Broker.State.{
  terminal_message, send_terminal, send, release, is_connected, Message, BrokerOutcome,
}
use ferrous_runtime.Broker.Calls.{register, new_job, has_cancelled_handle, check_request, initial}
use ferrous_runtime.Broker.Tally.{terminals, queued, parked, in_runtime}
use ferrous_runtime.Broker.Locks.Tally.{held}
use ferrous_runtime.Broker.Locks.Once.{held_all, interleaved_once}
use ferrous_runtime.Broker.Locks.Gate.{asked_ids, interleaved_approved}
use ferrous_runtime.Broker.Locks.System.{
  Move, calls, advances, works, submits, approves, cancels, moves, fresh,
}
use ferrous_runtime.Broker.Locks.System.{move, advance, advance_nth, receive, work}
use ferrous_runtime.Broker.Worker.{announce_start, notify_parked}
use ferrous_runtime.Command.Request.{filesystem_write}
use ferrous_runtime.Capability.Grant.{allows_path, allows_native_execution}
use ferrous_runtime.Capability.Filesystem.{allows, is_safe_absolute_path}
use ferrous_runtime.FilePath.{is_absolute, starts_with, component_eq}
use ferrous_runtime.Text.{text_eq}
use ferrous_runtime.Broker.Locks.{access, after_accept, after_risk, found}
use ferrous_runtime.Policy.{classify_risk, Risk}
use ferrous_runtime.Tests.Brokers.{risky, started_job}

-- Submitted, and received by the worker, which has entered the session into the parked ones.
abbrev entered : List (Move ℕ ℕ)
entered = calls (submits 9 risky) ∷ advances 0 0 ∷ advances 0 0 ∷ works 0 ∷ works 0 ∷ works 0 ∷ []

-- A caller cancels the session before the worker says that it is parked.
abbrev overtaken : List (Move ℕ ℕ)
overtaken = calls (cancels 1) ∷ advances 0 0 ∷ advances 0 0 ∷ works 0 ∷ []

overtaken-sent :
    (moves overtaken (moves entered (fresh 2 30))).shared.sent
    ≡ (0, Message.outcome (BrokerOutcome.pending_approval filesystem_write))
      ∷ (0, Message.outcome BrokerOutcome.cancelled)
      ∷ []
unfolding moves move fresh access validate contains_nul allows_path allows is_safe_absolute_path
    is_absolute starts_with component_eq text_eq initial HashMap.get HashMap.insert HashMap.remove
    classify_risk check_request has_cancelled_handle new_job register advance advance_nth receive
    work after_accept after_risk found is_connected release send send_terminal terminal_message
    announce_start notify_parked Cancel.is_cancelled Cancel.new allows_native_execution
    Session.accept Session.new
overtaken-sent = refl

interleaved_once_example :
    let y = moves entered (fresh 2 30) in
    terminals 0 y.shared.sent
      + queued 0 y.shared.queue
      + parked 0 y.shared.pending
      + in_runtime 0 y.shared.active
      + held 0 y.worker
      + held_all 0 y.threads
    ≤ 1
interleaved_once_example = interleaved_once 2 30 entered 0

abbrev to_runtime : List (Move ℕ ℕ)
to_runtime =
    calls (submits 9 risky)
    ∷ advances 0 0
    ∷ advances 0 0
    ∷ works 0
    ∷ works 0
    ∷ works 0
    ∷ works 0
    ∷ calls (approves 1)
    ∷ advances 5 0
    ∷ advances 5 0
    ∷ advances 5 0
    ∷ works 5
    ∷ works 5
    ∷ works 5
    ∷ works 5
    ∷ []

to_runtime-active : (moves to_runtime (fresh 2 30)).shared.active ≡ some started_job
unfolding moves move fresh access validate contains_nul allows_path allows is_safe_absolute_path
    is_absolute starts_with component_eq text_eq initial HashMap.get HashMap.insert HashMap.remove
    classify_risk check_request has_cancelled_handle new_job register advance advance_nth receive
    work after_accept after_risk found is_connected release send send_terminal terminal_message
    announce_start notify_parked Cancel.is_cancelled Cancel.new allows_native_execution
    Session.accept Session.new
to_runtime-active = refl

interleaved_approved_example :
    (classify_risk risky ≡ Risk.auto_approve) ⊎ Memᴰ 1 (asked_ids to_runtime)
interleaved_approved_example = interleaved_approved 2 30 to_runtime started_job to_runtime-active
