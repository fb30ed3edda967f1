-- ===== src/Broker/Approval/Gate.antt =====
-- The approval gate of crates/wasi-runtime/src/broker.rs over whole runs.
use ferrous_runtime.Prelude.{
  ◌≡◌, ◌==◌, List, ℕ, Bool, ◌∷◌, all, [], true, arith, ◌++◌, sym, any, mem-all, Memᴰ, refl,
  all-append, any-mem, mem-any, some, ◌∙◌, subst, ◌⊎◌, Bool-cases, inl, inr,
}
use ferrous_runtime.Broker.Calls.{initial, submit, submit_streaming}
use ferrous_runtime.Broker.Step.{
  finishes, Action, step, run, approves, stop_worker, drop_receiver, submits, streams, denies,
  cancels, takes_job, sweeps, outputs, drops_receiver, panics, shuts_down, stops_worker,
}
use ferrous_runtime.Broker.Sweeper.{expire_all, expire, sweep, shut_down, expired}
use ferrous_runtime.Broker.State.{Broker, JobSink, Active}
use ferrous_runtime.Broker.Approval.{KeepsSafe, is_safe, active_ok, is_auto}
use ferrous_runtime.Broker.Worker.{take_job, stream_output, finish_job, panic_job}
use ferrous_runtime.Broker.Approval.Calls.{
  expire-KeepsSafe, submit_with-KeepsSafe, approve-KeepsSafe, deny-KeepsSafe, cancel-KeepsSafe,
}
use ferrous_runtime.Broker.Approval.Worker.{
  take_from-KeepsSafe, stream_to-KeepsSafe, finish_active-KeepsSafe, panic_active-KeepsSafe,
}
use ferrous_runtime.Policy.{classify_risk, Risk}

abbrev pub approved_id : {C E : Type 0} → Action C E → List ℕ
approved_id (approves id) = id ∷ []
approved_id _ = []

-- The ids that `approve` was called with.
abbrev pub approved_ids : {C E : Type 0} → List (Action C E) → List ℕ
approved_ids [] = []
approved_ids (a ∷ actions) = approved_id a ++ approved_ids actions

module _ {C E : Type 0} (may : ℕ → Bool) where
  expire_all-KeepsSafe : (ids : List ℕ) (s : Broker C E) → KeepsSafe may s (expire_all ids s)
  unfolding expire_all
  expire_all-KeepsSafe [] s k = k
  expire_all-KeepsSafe (id ∷ ids) s k =
      expire_all-KeepsSafe ids (expire id s) (expire-KeepsSafe may id s k)

  pub step-KeepsSafe :
      (a : Action C E) (s : Broker C E)
      → all may (approved_id a) ≡ true
      → KeepsSafe may s (step a s)
  unfolding step submit submit_streaming take_job stream_output finish_job panic_job sweep shut_down
      stop_worker drop_receiver is_safe
  step-KeepsSafe (submits compiled request) s h k =
      submit_with-KeepsSafe may JobSink.outcome compiled request s k
  step-KeepsSafe (streams compiled request) s h k =
      submit_with-KeepsSafe may JobSink.events compiled request s k
  step-KeepsSafe (approves id) s h k = approve-KeepsSafe may id s (ground arith) k
  step-KeepsSafe (denies id) s h k = deny-KeepsSafe may id s k
  step-KeepsSafe (cancels id) s h k = cancel-KeepsSafe may id s k
  step-KeepsSafe (takes_job now) s h k = take_from-KeepsSafe may now s.active s.queue s refl k
  step-KeepsSafe (sweeps order now) s h k = expire_all-KeepsSafe (expired now (order s.pending)) s k
  step-KeepsSafe (outputs stream bytes) s h k = stream_to-KeepsSafe may s.active stream bytes s k
  step-KeepsSafe (finishes r) s h k = finish_active-KeepsSafe may r s.active s k
  step-KeepsSafe panics s h k = panic_active-KeepsSafe may s.active s k
  step-KeepsSafe shuts_down s h k = k
  step-KeepsSafe stops_worker s h k = ground arith
  step-KeepsSafe (drops_receiver d) s h k = k

  run-KeepsSafe :
      (actions : List (Action C E)) (s : Broker C E)
      → all may (approved_ids actions) ≡ true
      → KeepsSafe may s (run actions s)
  unfolding run
  run-KeepsSafe [] s h k = k
  run-KeepsSafe (a ∷ actions) s h k =
      let both = sym (all-append may (approved_id a) (approved_ids actions)) ∙ h in
      run-KeepsSafe actions (step a s) (ground arith) (step-KeepsSafe a s (ground arith) k)

abbrev pub one_of : List ℕ → ℕ → Bool
one_of ids id = any (λ j. j == id) ids

pub one_of_self : (ids : List ℕ) → all (one_of ids) ids ≡ true
one_of_self ids = mem-all (one_of ids) ids (λ id m. any-mem (λ j. j == id) m (ground arith))

mem-one_of : (ids : List ℕ) (id : ℕ) → one_of ids id ≡ true → Memᴰ id ids
mem-one_of ids id h =
    let (j, member, same) = mem-any (λ j. j == id) ids h in
    subst (λ i. Memᴰ i ids) (ground arith) member

pub initial-is_safe :
    (C E : Type 0) (may : ℕ → Bool) (capacity timeout : ℕ)
    → is_safe {C = C} {E = E} may (initial capacity timeout) ≡ true
unfolding initial is_safe
initial-is_safe C E may capacity timeout = refl

pub active_ok-approved :
    {C : Type 0} (ids : List ℕ) (a : Active C)
    → active_ok (one_of ids) (some a) ≡ true
    → (classify_risk a.job.request ≡ Risk.auto_approve) ⊎ Memᴰ a.job.request.id ids
active_ok-approved ids a h = elim (Bool-cases (is_auto (classify_risk a.job.request))) [
  | inl e ↦ inl (ground arith)
  | inr e ↦ inr (mem-one_of ids a.job.request.id (ground arith))
]

module _ {C E : Type 0} where
  -- From a new broker, whatever is done and in whatever order: while a job is in the runtime, its
  -- request opens nothing that needs approval, or a human has called `approve` with its id before.
  pub runs-approved :
      (capacity timeout : ℕ) (actions : List (Action C E)) (a : Active C)
      → (run actions (initial capacity timeout)).active ≡ some a
      → (classify_risk a.job.request ≡ Risk.auto_approve)
        ⊎ Memᴰ a.job.request.id (approved_ids actions)
  unfolding is_safe
  runs-approved capacity timeout actions a e =
      let ids = approved_ids actions in
      let safe =
        run-KeepsSafe (one_of ids) actions (initial capacity timeout) (one_of_self ids)
          (initial-is_safe C E (one_of ids) capacity timeout) in
      active_ok-approved ids a (subst (λ o. active_ok (one_of ids) o ≡ true) e (ground arith))
