-- ===== src/Broker/Locks/Alone/Worker.antt =====
-- `process_job` of crates/wasi-runtime/src/broker.rs up to the runtime, run alone.
use ferrous_runtime.Prelude.{
  ◌≡◌, ◌∷◌, [], ◌+◌, ℕ, Option-cases, inl, inr, refl, suc, ◌∙◌, Bool-cases, true, false, ok, err,
  none, some,
}
use ferrous_runtime.HashMap
use ferrous_runtime.Cancel
use ferrous_runtime.Command.Session
use ferrous_runtime.Command.Session.{SessionEvent, Accepted}
use ferrous_runtime.Command.Request.{ApprovalReason, invalid_transition}
use ferrous_runtime.Policy.{Risk, classify_risk}
use ferrous_runtime.Broker.State.{
  Broker, Job, PendingJob, JobSink, ApprovalDecision, AuditOutcome, Terminal, release,
  send_terminal,
}
use ferrous_runtime.Broker.Calls.{close_parked}
use ferrous_runtime.Broker.Worker.{
  begin_job, orphaned, dispatch_risk, start_execution, start_cancelled, start_accepted,
  start_refused, complete, park, notify_parked, is_approved,
}
use ferrous_runtime.Broker.Locks.{
  access, look_up, tell_orphan, read_flag, park_insert, notify, unpark, release_handle, tell,
  after_risk, after_accept,
}
use ferrous_runtime.Broker.Locks.Alone.{advance_many, idle, next, tell_last, release_alone}

module _ {C E : Type 0} (now : ℕ) where
  module _ (job : Job C) (s : Broker C E) where
    no_session :
        HashMap.get job.request.id s.handles ≡ none
        → access now (look_up job) s ≡ (s, tell_orphan job ∷ [])
    unfolding access
    no_session e = rw (e, access) refl

    one_session :
        (handle : Cancel.CancelHandle)
        → HashMap.get job.request.id s.handles ≡ some handle
        → access now (look_up job) s ≡ (s, after_risk (classify_risk job.request) job handle ∷ [])
    unfolding access
    one_session handle e = rw (e, access) refl

    orphan_alone :
        (n : ℕ) → advance_many (suc (suc n)) now (tell_orphan job ∷ []) s ≡ (orphaned job s, [])
    unfolding orphaned access
    orphan_alone n =
        next now (suc n) _ [] s refl
        ∙ release_alone now n job.request.id (
            send_terminal job.sink
              (Terminal.denied_with (invalid_transition "session handle disappeared before start"))
              s)

    module _ (handle : Cancel.CancelHandle) (d : ApprovalDecision) where
      flag_set :
          Cancel.is_cancelled handle s.flags ≡ true
          → access now (read_flag job handle d) s
            ≡ (s, tell job.request.id job Terminal.cancelled d AuditOutcome.cancelled ∷ [])
      unfolding access
      flag_set e = rw (e, access) refl

      flag_clear :
          Cancel.is_cancelled handle s.flags ≡ false
          → access now (read_flag job handle d) s
            ≡ (s, after_accept job handle d (Session.accept job.session SessionEvent.started) ∷ [])
      unfolding access
      flag_clear e = rw (e, access) refl

      accept_alone :
          (n : ℕ) (a : Accepted)
          → advance_many (suc (suc (suc n))) now (after_accept job handle d a ∷ []) s
            ≡ (start_accepted job handle d a s, [])
      unfolding start_accepted start_refused complete close_parked after_accept access
      accept_alone n (session, ok _) =
          next now (suc (suc n)) _ [] s refl
          ∙ idle now (suc (suc n)) (start_accepted job handle d (session, ok tt) s)
      accept_alone n (session, err e) =
          tell_last now n job.request.id job
            (Terminal.denied_with (invalid_transition "session cannot start")) d AuditOutcome.denied
            s

      read_flag_alone :
          (n : ℕ)
          → advance_many (suc (suc (suc (suc n)))) now (read_flag job handle d ∷ []) s
            ≡ (start_execution job handle d s, [])
      unfolding start_execution start_cancelled complete close_parked
      read_flag_alone n = elim (Bool-cases (Cancel.is_cancelled handle s.flags)) [
        | inl e ↦
            rw (e, start_execution)
              (next now (suc (suc (suc n))) _ [] s (flag_set e)
                ∙ tell_last now n job.request.id job Terminal.cancelled d AuditOutcome.cancelled s)
        | inr e ↦
            rw (e, start_execution)
              (next now (suc (suc (suc n))) _ [] s (flag_clear e)
                ∙ accept_alone n (Session.accept job.session SessionEvent.started))
      ]

  module _ (id : ℕ) (sink : JobSink) (reason : ApprovalReason) (s : Broker C E) where
    abbrev told : Broker C E
    told = (notify_parked sink reason s).0

    somebody :
        (notify_parked sink reason s).1 ≡ true → access now (notify id sink reason) s ≡ (told, [])
    unfolding access
    somebody e = rw (e, access) refl

    nobody :
        (notify_parked sink reason s).1 ≡ false
        → access now (notify id sink reason) s ≡ (told, unpark id ∷ release_handle id ∷ [])
    unfolding access
    nobody e = rw (e, access) refl

    unpark_alone :
        (n : ℕ) (u : Broker C E)
        → advance_many (suc (suc n)) now (unpark id ∷ release_handle id ∷ []) u
          ≡ (release id (record u { pending = HashMap.remove id u.pending }), [])
    unfolding access
    unpark_alone n u =
        next now (suc n) _ (release_handle id ∷ []) u refl
        ∙ release_alone now n id (record u { pending = HashMap.remove id u.pending })

  park_alone :
      (n : ℕ) (job : Job C) (reason : ApprovalReason) (s : Broker C E)
      → advance_many (suc (suc (suc (suc n)))) now (park_insert job reason ∷ []) s
        ≡ (park job reason now s, [])
  unfolding park access
  park_alone n job reason s =
      let asked = (Session.accept job.session (SessionEvent.pending_approval reason)).0 in
      let parked : PendingJob C = record {
        job = record job { session = asked };
        deadline = now + s.approval_timeout;
      } in
      let u = record s { pending = HashMap.insert job.request.id parked s.pending } in
      let id = job.request.id in
      elim (Bool-cases (notify_parked job.sink reason u).1) [
        | inl e ↦
            rw (e, park)
              (next now (suc (suc (suc n))) _ [] s refl
                ∙ next now (suc (suc n)) _ [] u (somebody id job.sink reason u e)
                ∙ idle now (suc (suc n)) (told id job.sink reason u))
        | inr e ↦
            rw (e, park)
              (next now (suc (suc (suc n))) _ [] s refl
                ∙ next now (suc (suc n)) _ [] u (nobody id job.sink reason u e)
                ∙ unpark_alone id job.sink reason u n (told id job.sink reason u))
      ]

  dispatch_alone :
      (risk : Risk) (job : Job C) (handle : Cancel.CancelHandle) (s : Broker C E)
      → advance_many 4 now (after_risk risk job handle ∷ []) s
        ≡ (dispatch_risk risk job handle now s, [])
  unfolding after_risk dispatch_risk
  dispatch_alone Risk.auto_approve job handle s = read_flag_alone job s handle job.admission 0
  dispatch_alone (Risk.requires_approval reason) job handle s =
      elim (Bool-cases (is_approved job.admission)) [
        | inl e ↦
            rw (e, after_risk, dispatch_risk)
              (read_flag_alone job s handle ApprovalDecision.approved 0)
        | inr e ↦ rw (e, after_risk, dispatch_risk) (park_alone 0 job reason s)
      ]

  pub begin_alone :
      (job : Job C) (s : Broker C E)
      → advance_many 5 now (look_up job ∷ []) s ≡ (begin_job now job s, [])
  unfolding begin_job
  begin_alone job s = elim (Option-cases (HashMap.get job.request.id s.handles)) [
    | inl e ↦ rw (e, begin_job) (next now 4 _ [] s (no_session job s e) ∙ orphan_alone job s 2)
    | inr (handle, e) ↦
        rw (e, begin_job)
          (next now 4 _ [] s (one_session job s handle e)
            ∙ dispatch_alone (classify_risk job.request) job handle s)
  ]
