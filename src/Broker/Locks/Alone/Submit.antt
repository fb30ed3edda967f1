-- ===== src/Broker/Locks/Alone/Submit.antt =====
-- `submit` and the end of `approve`, crates/wasi-runtime/src/broker.rs, run alone.
use ferrous_runtime.Prelude.{
  ◌≡◌, ◌∷◌, ◌++◌, [], ◌+◌, ℕ, Result-cases, inl, inr, refl, suc, ap, ◌∙◌, Bool-cases, true, false,
  ok, err, length, Bool, leb, arith, sym,
}
use ferrous_runtime.Command.Request.{CommandRequest}
use ferrous_runtime.Broker.State.{Broker, BrokerError, Job, release}
use ferrous_runtime.Broker.Calls.{submit_with, enqueue, send_job, check_request, new_job, register}
use ferrous_runtime.Broker.Locks.{access, open_session, queue_send, release_handle, sink_of}
use ferrous_runtime.Broker.Locks.Alone.{advance_many, idle, next, release_alone}

module _ {C E : Type 0} (now : ℕ) where
  module _ (job : Job C) (s : Broker C E) where
    queue_stopped :
        s.worker_stopped ≡ true
        → access now (queue_send job) s ≡ (s, release_handle job.request.id ∷ [])
    unfolding access
    queue_stopped e = rw (e, access) refl

    queue_running :
        s.worker_stopped ≡ false
        → access now (queue_send job) s ≡ (record s { queue = s.queue ++ job ∷ [] }, [])
    unfolding access
    queue_running e = rw (e, access) refl

    sent_running :
        s.worker_stopped ≡ false → (send_job job s).0 ≡ record s { queue = s.queue ++ job ∷ [] }
    unfolding send_job
    sent_running e = ground arith

    sent_stopped : s.worker_stopped ≡ true → (send_job job s).0 ≡ release job.request.id s
    unfolding send_job
    sent_stopped e = ground arith

    pub queue_send_alone :
        (n : ℕ) → advance_many (suc (suc n)) now (queue_send job ∷ []) s ≡ ((send_job job s).0, [])
    queue_send_alone n = elim (Bool-cases s.worker_stopped) [
      | inl e ↦
          next now (suc n) _ [] s (queue_stopped e)
          ∙ release_alone now n job.request.id s
          ∙ ap (λ x. (x, [])) (sym (sent_stopped e))
      | inr e ↦
          next now (suc n) _ [] s (queue_running e)
          ∙ idle now (suc n) (record s { queue = s.queue ++ job ∷ [] })
          ∙ ap (λ x. (x, [])) (sym (sent_running e))
    ]

  module _ (streams : Bool) (compiled : C) (request : CommandRequest) (s : Broker C E) where
    abbrev opened : Broker C E
    opened = record s { next_channel = s.next_channel + 1 }

    refused :
        (problem : BrokerError E)
        → check_request request ≡ err problem
        → access now (open_session streams compiled request) s ≡ (s, [])
    unfolding access check_request
    refused problem e = rw (e, access) refl

    admitted_full :
        check_request {E = E} request ≡ ok tt
        → leb s.capacity (length s.handles) ≡ true
        → access now (open_session streams compiled request) s ≡ (opened, [])
    unfolding access check_request
    admitted_full e full = rw (e, full, access) refl

    admitted :
        check_request {E = E} request ≡ ok tt
        → leb s.capacity (length s.handles) ≡ false
        → access now (open_session streams compiled request) s ≡ (
          register request.id opened,
          queue_send (new_job compiled request (sink_of streams s.next_channel)) ∷ [],
        )
    unfolding access check_request
    admitted e room = rw (e, room, access) refl

    pub submit_alone :
        advance_many 5 now (open_session streams compiled request ∷ []) s
        ≡ ((submit_with (sink_of streams) compiled request s).0, [])
    unfolding submit_with enqueue check_request
    submit_alone = elim (Result-cases (check_request {E = E} request)) [
      | inl (problem, e) ↦
          rw (e, submit_with) (next now 4 _ [] s (refused problem e) ∙ idle now 4 s)
      | inr (tt, e) ↦ elim (Bool-cases (leb s.capacity (length s.handles))) [
        | inl full ↦
            rw (e, full, submit_with) (next now 4 _ [] s (admitted_full e full) ∙ idle now 4 opened)
        | inr room ↦
            rw (e, room, submit_with)
              (next now 4 _ [] s (admitted e room)
                ∙ queue_send_alone (new_job compiled request (sink_of streams s.next_channel))
                    (register request.id opened) 2)
      ]
    ]
