-- ===== src/Tests/Accounted.antt =====
-- What becomes of one session, and how many there are, at a concrete run.
use ferrous_runtime.Prelude.{◌≡◌, ◌≤◌, ◌+◌, ◌∷◌, [], ℕ, List, ok, refl, true, false, arith}
use ferrous_runtime.HashMap
use ferrous_runtime.Policy.{classify_risk}
use ferrous_runtime.Command.Request.{validate, contains_nul}
use ferrous_runtime.Capability.Grant.{allows_path, allows_native_execution}
use ferrous_runtime.Capability.Filesystem.{allows, is_safe_absolute_path}
use ferrous_runtime.FilePath.{is_absolute, starts_with, component_eq}
use ferrous_runtime.Text.{text_eq}
use ferrous_runtime.Cancel
use ferrous_runtime.Command.Session
use ferrous_runtime.Broker.State.{is_connected, send, release, record_entry}
use ferrous_runtime.Broker.Calls.{
  initial, submit, submit_with, check_request, new_job, enqueue, register, send_job, approve,
  approve_job, has_cancelled_handle,
}
use ferrous_runtime.Broker.Worker.{
  take_job, take_from, begin_job, dispatch_risk, start_execution, start_accepted, announce_start,
  park, notify_parked, finish_job, finish_active, complete,
}
use ferrous_runtime.Broker.Step.{Action, run, step, takes_job, approves, finishes}
use ferrous_runtime.Broker.Tally.{terminals, queued, parked, in_runtime}
use ferrous_runtime.Broker.Locks.{sink_of}
use ferrous_runtime.Broker.Accounted.{count, submitted_ids}
use ferrous_runtime.Broker.Accounted.Sessions.{accounted, opening}
use ferrous_runtime.Tests.Brokers.{risky, ended_run}

abbrev rest_of_life : List (Action ℕ ℕ)
rest_of_life = takes_job 0 ∷ approves 1 ∷ takes_job 5 ∷ finishes ended_run ∷ []

abbrev whole_life : List (Action ℕ ℕ)
whole_life = opening false 9 risky ∷ rest_of_life

one_id : (i : ℕ) → count i (submitted_ids whole_life) ≤ 1
unfolding count
one_id i = ground arith

risky-accepted :
    (submit_with (sink_of false) 9 risky (run [] (initial {C = ℕ} {E = ℕ} 2 30))).1 ≡ ok 0
unfolding run step submit submit_with check_request validate new_job initial enqueue register
    send_job release contains_nul allows_path allows is_safe_absolute_path is_absolute starts_with
    component_eq text_eq allows_native_execution HashMap.insert HashMap.remove Cancel.new
    Session.new
risky-accepted = refl

whole_life-heard :
    (is_connected 0 (run whole_life (initial 2 30)) ≡ true)
    × ((run whole_life (initial 2 30)).worker_stopped ≡ false)
unfolding run step submit submit_with check_request validate new_job initial enqueue register
    send_job release contains_nul allows_path allows is_safe_absolute_path is_absolute starts_with
    component_eq text_eq allows_native_execution HashMap.insert HashMap.remove Cancel.new
    Session.new approve approve_job has_cancelled_handle take_job take_from begin_job dispatch_risk
    start_execution park notify_parked send is_connected classify_risk start_accepted announce_start
    finish_job finish_active complete record_entry HashMap.get Cancel.is_cancelled Session.accept
whole_life-heard = (refl, refl)

accounted_example :
    let s = run whole_life (initial 2 30) in
    terminals 0 s.sent + queued 0 s.queue + parked 0 s.pending + in_runtime 0 s.active ≡ 1
accounted_example =
    accounted 2 30 [] rest_of_life false 9 risky 0 one_id risky-accepted refl whole_life-heard.0
      whole_life-heard.1
