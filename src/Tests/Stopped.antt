-- ===== src/Tests/Stopped.antt =====
-- A session that is cancelled while it waits, at a concrete input.
use ferrous_runtime.Prelude.{◌∷◌, [], ℕ, List}
use ferrous_runtime.HashMap
use ferrous_runtime.Cancel
use ferrous_runtime.Command.Session
use ferrous_runtime.Command.Session.{Lifecycle}
use ferrous_runtime.Capability.Limits.{default_limits}
use ferrous_runtime.Broker.State.{Broker, Active, JobSink, ApprovalDecision}
use ferrous_runtime.Broker.Calls.{initial, cancel}
use ferrous_runtime.Broker.Step.{Action, submits, takes_job, run}
use ferrous_runtime.Tests.Fixtures.{request_with, reading_grant}

-- Two sessions wait.
abbrev two_waiting : Broker ℕ ℕ
two_waiting =
    run (submits 9 (request_with 1 reading_grant) ∷ submits 9 (request_with 2 reading_grant) ∷ [])
      (initial 2 30)

abbrev takes_both : List (Action ℕ ℕ)
takes_both = takes_job 0 ∷ takes_job 0 ∷ []

-- The second one, in the runtime.
abbrev second_running : Active ℕ
second_running = record {
  job = record {
    request = request_with 2 reading_grant;
    compiled = 9;
    sink = JobSink.outcome 1;
    session = record {
      id = 2;
      limits = default_limits;
      output_bytes = 0;
      lifecycle = Lifecycle.running;
    };
    admission = ApprovalDecision.auto_approved;
  };
  cancel = 1;
  decision = ApprovalDecision.auto_approved;
}
