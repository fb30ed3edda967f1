-- ===== src/Tests/Unit/Scripts.antt =====
-- What the tests in crates/wasi-runtime/src/broker.rs share. The threads of a test become one
-- sequence of steps, and what the runtime makes of its two guests is part of that sequence.
use ferrous_runtime.Prelude.{
  ◌&&◌, ◌∷◌, ◌>>=◌, ◌==◌, [], Bool, true, false, ℕ, List, some, Result, ok, err, if◌then◌else◌,
  none,
}
use ferrous_runtime.Text.{Text, text}
use ferrous_runtime.FilePath.{FilePath}
use ferrous_runtime.FilePath.Parse.{from_text}
use ferrous_runtime.Capability.Filesystem.{FilesystemAccess, read, read_write}
use ferrous_runtime.Capability.Limits
use ferrous_runtime.Capability.Limits.{with_fuel}
use ferrous_runtime.Capability.Grant.{CapabilityGrant, workspace, with_limits}
use ferrous_runtime.Command.Request
use ferrous_runtime.Command.Request.{CommandRequest, agent, wasi, filesystem_write}
use ferrous_runtime.Command.Session.{SessionEvent}
use ferrous_runtime.Runtime.Store.{RuntimeError, WasiOutput}
use ferrous_runtime.Broker.State.{
  Broker, BrokerError, BrokerOutcome, Message, ChannelId, default_max_outstanding_sessions,
  default_approval_timeout,
}
use ferrous_runtime.Broker.Calls.{with_config, submit, submit_streaming}

-- A test that ran to its end has a value, which is what it asserted; a failed `expect` has none.
abbrev pub Test : Type 0 → Type 0
Test A = Result (Unit {0}) A

abbrev pub expect {ℓ} : {E : Type ℓ} {A : Type 0} → Result E A → Test A
expect (ok value) = ok value
expect (err _) = err tt

abbrev pub passes : Test Bool → Bool
passes (ok holds) = holds
passes (err _) = false

abbrev root : FilePath
root = from_text (text "/tmp/ferrous-broker-workspace")

-- `grant` and `write_grant`, which differ in the access.
abbrev grant_with : FilesystemAccess → ℕ → ℕ → Test CapabilityGrant
grant_with access timeout_seconds fuel = do
  rooted ← expect (workspace root access)
  timed ← expect (Limits.new 1_048_576 timeout_seconds)
  limits ← expect (with_fuel timed fuel)
  ok (with_limits rooted limits)

abbrev pub grant : ℕ → ℕ → Test CapabilityGrant
grant = grant_with read

abbrev pub write_grant : ℕ → ℕ → Test CapabilityGrant
write_grant = grant_with read_write

-- The component is not looked into: a number stands for it where the session is submitted.
abbrev pub request : ℕ → Text → Test CapabilityGrant → Test CommandRequest
request id program granted = do
  grant ← granted
  expect (Request.new id agent wasi program [] root grant)

abbrev pub new_broker : Test (Broker ℕ ℕ)
new_broker = expect (with_config none default_max_outstanding_sessions default_approval_timeout)

-- How a run of `HELLO_WAT` ends, and one of `SPIN_WAT`: at its deadline, or once it is cancelled.
abbrev pub hello : Result (RuntimeError ℕ) WasiOutput
hello = ok (record { stdout = []; stderr = []; exit_code = 0 })

abbrev pub timed_out : Result (RuntimeError ℕ) WasiOutput
timed_out = err (RuntimeError.wasi 0)

abbrev pub interrupted : Result (RuntimeError ℕ) WasiOutput
interrupted = err RuntimeError.cancelled

-- The messages that a test tells apart.
abbrev pub is_completed : Message ℕ → Bool
is_completed (Message.outcome (BrokerOutcome.completed output)) = output.exit_code == 0
is_completed _ = false

abbrev pub is_failed : Message ℕ → Bool
is_failed (Message.outcome (BrokerOutcome.failed _)) = true
is_failed _ = false

abbrev pub is_cancelled : Message ℕ → Bool
is_cancelled (Message.outcome BrokerOutcome.cancelled) = true
is_cancelled (Message.event SessionEvent.cancelled) = true
is_cancelled _ = false

abbrev pub is_denied : Message ℕ → Bool
is_denied (Message.outcome (BrokerOutcome.denied _)) = true
is_denied _ = false

abbrev pub is_pending : Message ℕ → Bool
is_pending (Message.outcome (BrokerOutcome.pending_approval filesystem_write)) = true
is_pending (Message.event (SessionEvent.pending_approval filesystem_write)) = true
is_pending _ = false

abbrev pub is_started : Message ℕ → Bool
is_started (Message.event SessionEvent.started) = true
is_started _ = false

abbrev pub is_exited : Message ℕ → Bool
is_exited (Message.event (SessionEvent.exited (some code))) = code == 0
is_exited _ = false

-- The messages on a channel, newest first, are as many as the tests on them, and pass these.
unfoldable pub fit : List (Message ℕ → Bool) → ChannelId → List (ChannelId × Message ℕ) → Bool
fit [] channel [] = true
fit (test ∷ tests) channel [] = false
fit [] channel ((to, message) ∷ rest) = if to == channel then false else fit [] channel rest
fit (test ∷ tests) channel ((to, message) ∷ rest) =
    let others = fit tests channel rest in
    let later = fit (test ∷ tests) channel rest in
    if to == channel then test message && others else later

abbrev pub hears : List (Message ℕ → Bool) → ChannelId → Broker ℕ ℕ → Bool
hears tests channel s = fit tests channel s.sent

-- `submit` and `submit_streaming`, with the receiver and the broker after the call.
abbrev pub submitted : CommandRequest → Broker ℕ ℕ → Test (ChannelId × Broker ℕ ℕ)
submitted asked s =
    let (after, receiver) = submit 0 asked s in expect receiver >>= λ channel. ok (channel, after)

abbrev pub streaming : CommandRequest → Broker ℕ ℕ → Test (ChannelId × Broker ℕ ℕ)
streaming asked s =
    let (after, events) = submit_streaming 0 asked s in
    expect events >>= λ channel. ok (channel, after)

-- A call that must succeed, with the broker after it.
abbrev pub allowed : Broker ℕ ℕ × Result (BrokerError ℕ) (Unit {0}) → Test (Broker ℕ ℕ)
allowed (after, result) = expect result >>= λ _. ok after
