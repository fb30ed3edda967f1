-- ===== src/Broker/Locks/Alone/Calls.antt =====
-- The calls of crates/wasi-runtime/src/broker.rs, run alone.
use ferrous_runtime.Prelude.{
  ◌≡◌, ◌∷◌, [], ℕ, List, Option-cases, inl, inr, refl, suc, ap, ◌∙◌, Bool-cases, true, false, none,
  some,
}
use ferrous_runtime.HashMap
use ferrous_runtime.Cancel
use ferrous_runtime.Broker.State.{Broker, Job, PendingJob, ApprovalDecision, AuditOutcome, Terminal}
use ferrous_runtime.Broker.Calls.{
  approve, approve_job, deny, cancel, cancel_live, close_parked, has_cancelled_handle,
}
use ferrous_runtime.Broker.Sweeper.{expire_all, expire}
use ferrous_runtime.Broker.Locks.{
  Purpose, access, found, missing, expire_tasks, queue_send, take_parked, check_cancelled,
  find_handle, set_flag, tell, to_approve, to_deny, to_cancel, to_expire,
}
use ferrous_runtime.Broker.Locks.Alone.{advance_many, idle, next, tell_alone, tell_last}
use ferrous_runtime.Broker.Locks.Alone.Submit.{queue_send_alone}

abbrev pub fuel_for : List ℕ → ℕ → ℕ
fuel_for [] n = n
fuel_for (id ∷ ids) n = suc (suc (suc (suc (fuel_for ids n))))

fuel_for-suc : (ids : List ℕ) (n : ℕ) → fuel_for ids (suc n) ≡ suc (fuel_for ids n)
fuel_for-suc [] n = refl
fuel_for-suc (id ∷ ids) n = ap (λ k. suc (suc (suc (suc k)))) (fuel_for-suc ids n)

more_fuel :
    (ids : List ℕ) (n : ℕ) → suc (suc (suc (fuel_for ids n))) ≡ fuel_for ids (suc (suc (suc n)))
more_fuel ids n = cc (fuel_for-suc ids n, fuel_for-suc ids (suc n), fuel_for-suc ids (suc (suc n)))

module _ {C E : Type 0} (now : ℕ) where
  module _ (why : Purpose) (id : ℕ) (s : Broker C E) where
    taken_none :
        HashMap.get id s.pending ≡ none → access now (take_parked why id) s ≡ (s, missing why id)
    unfolding access
    taken_none e = rw (e, access) refl

    taken_some :
        (p : PendingJob C)
        → HashMap.get id s.pending ≡ some p
        → access now (take_parked why id) s
          ≡ (record s { pending = HashMap.remove id s.pending }, found why id p.job)
    unfolding access
    taken_some p e = rw (e, access) refl

  module _ (id : ℕ) (job : Job C) (s : Broker C E) where
    check_cancelled_yes :
        has_cancelled_handle id s ≡ true
        → access now (check_cancelled id job) s ≡ (
          s,
          tell id job Terminal.cancelled ApprovalDecision.cancelled AuditOutcome.cancelled ∷ [],
        )
    unfolding access has_cancelled_handle
    check_cancelled_yes e = rw (e, access) refl

    check_cancelled_no :
        has_cancelled_handle id s ≡ false
        → access now (check_cancelled id job) s
          ≡ (s, queue_send (record job { admission = ApprovalDecision.approved }) ∷ [])
    unfolding access has_cancelled_handle
    check_cancelled_no e = rw (e, access) refl

    check_alone :
        (n : ℕ)
        → advance_many (suc (suc (suc (suc n)))) now (check_cancelled id job ∷ []) s
          ≡ ((approve_job id job s).0, [])
    unfolding approve_job
    check_alone n = elim (Bool-cases (has_cancelled_handle id s)) [
      | inl e ↦
          rw (e, approve_job)
            (next now (suc (suc (suc n))) _ [] s (check_cancelled_yes e)
              ∙ tell_last now n id job Terminal.cancelled ApprovalDecision.cancelled
                  AuditOutcome.cancelled s)
      | inr e ↦
          rw (e, approve_job)
            (next now (suc (suc (suc n))) _ [] s (check_cancelled_no e)
              ∙ queue_send_alone now (record job { admission = ApprovalDecision.approved }) s
                  (suc n))
    ]

  module _ (id : ℕ) (s : Broker C E) where
    pub approve_alone :
        advance_many 5 now (take_parked to_approve id ∷ []) s ≡ ((approve id s).0, [])
    unfolding approve missing found
    approve_alone = elim (Option-cases (HashMap.get id s.pending)) [
      | inl e ↦ rw (e, approve) (next now 4 _ [] s (taken_none to_approve id s e) ∙ idle now 4 s)
      | inr (p, e) ↦
          rw (e, approve)
            (next now 4 _ [] s (taken_some to_approve id s p e)
              ∙ check_alone id p.job (record s { pending = HashMap.remove id s.pending }) 0)
    ]

    pub deny_alone : advance_many 5 now (take_parked to_deny id ∷ []) s ≡ ((deny id s).0, [])
    unfolding deny missing found
    deny_alone = elim (Option-cases (HashMap.get id s.pending)) [
      | inl e ↦ rw (e, deny) (next now 4 _ [] s (taken_none to_deny id s e) ∙ idle now 4 s)
      | inr (p, e) ↦
          rw (e, deny)
            (next now 4 _ [] s (taken_some to_deny id s p e)
              ∙ tell_last now 1 id p.job Terminal.denied ApprovalDecision.denied AuditOutcome.denied
                  (record s { pending = HashMap.remove id s.pending }))
    ]

    no_handle : HashMap.get id s.handles ≡ none → access now (find_handle id) s ≡ (s, [])
    unfolding access
    no_handle e = rw (e, access) refl

    one_handle :
        (handle : Cancel.CancelHandle)
        → HashMap.get id s.handles ≡ some handle
        → access now (find_handle id) s ≡ (s, set_flag handle ∷ [])
    unfolding access
    one_handle handle e = rw (e, access) refl

    set_flag_alone :
        (n : ℕ) (handle : Cancel.CancelHandle)
        → advance_many (suc n) now (set_flag handle ∷ []) s
          ≡ (record s { flags = Cancel.cancel handle s.flags }, [])
    unfolding advance_many access
    set_flag_alone n handle = idle now n (record s { flags = Cancel.cancel handle s.flags })

    cancel_live_alone :
        (n : ℕ)
        → advance_many (suc (suc n)) now (find_handle id ∷ []) s ≡ ((cancel_live id s).0, [])
    unfolding cancel_live
    cancel_live_alone n = elim (Option-cases (HashMap.get id s.handles)) [
      | inl e ↦ rw (e, cancel_live) (next now (suc n) _ [] s (no_handle e) ∙ idle now (suc n) s)
      | inr (handle, e) ↦
          rw (e, cancel_live)
            (next now (suc n) _ [] s (one_handle handle e) ∙ set_flag_alone n handle)
    ]

    pub cancel_alone : advance_many 5 now (take_parked to_cancel id ∷ []) s ≡ ((cancel id s).0, [])
    unfolding cancel missing found
    cancel_alone = elim (Option-cases (HashMap.get id s.pending)) [
      | inl e ↦
          rw (e, cancel) (next now 4 _ [] s (taken_none to_cancel id s e) ∙ cancel_live_alone 2)
      | inr (p, e) ↦
          rw (e, cancel)
            (next now 4 _ [] s (taken_some to_cancel id s p e)
              ∙ tell_last now 1 id p.job Terminal.cancelled ApprovalDecision.cancelled
                  AuditOutcome.cancelled (record s { pending = HashMap.remove id s.pending }))
    ]

  abbrev timed_out : ℕ → PendingJob C → Broker C E → Broker C E
  timed_out id p s =
      close_parked id p.job Terminal.denied ApprovalDecision.timed_out AuditOutcome.denied
        (record s { pending = HashMap.remove id s.pending })

  pub expire_alone :
      (ids : List ℕ) (n : ℕ) (s : Broker C E)
      → advance_many (fuel_for ids n) now (expire_tasks ids) s ≡ (expire_all ids s, [])
  unfolding expire_all expire missing found
  expire_alone [] n s = idle now n s
  expire_alone (id ∷ ids) n s = elim (Option-cases (HashMap.get id s.pending)) [
    | inl e ↦
        rw (e, expire)
          (next now (suc (suc (suc (fuel_for ids n)))) _ (expire_tasks ids) s
              (taken_none to_expire id s e)
            ∙ ap (λ k. advance_many k now (expire_tasks ids) s) (more_fuel ids n)
            ∙ expire_alone ids (suc (suc (suc n))) s)
    | inr (p, e) ↦
        rw (e, expire)
          (next now (suc (suc (suc (fuel_for ids n)))) _ (expire_tasks ids) s
              (taken_some to_expire id s p e)
            ∙ tell_alone now (fuel_for ids n) id p.job Terminal.denied ApprovalDecision.timed_out
                AuditOutcome.denied (expire_tasks ids)
                (record s { pending = HashMap.remove id s.pending })
            ∙ expire_alone ids n (timed_out id p s))
  ]
