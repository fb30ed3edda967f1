-- ===== src/Broker/Accounted/Worker.antt =====
-- Who owes an end in the worker of crates/wasi-runtime/src/broker.rs.
use ferrous_runtime.Prelude.{
  ◌≡◌, ◌==◌, ◌≤◌, ◌+◌, ◌∷◌, [], ℕ, List, Option, some, none, true, false, arith, refl, Option-cases,
  Bool-cases, inl, inr, sym, subst, ap, ok, err, ◌∙◌,
}
use ferrous_runtime.HashMap
use ferrous_runtime.Command.Request.{ApprovalReason, invalid_transition}
use ferrous_runtime.Command.Session
use ferrous_runtime.Command.Session.{SessionEvent, Stream, Accepted}
use ferrous_runtime.Policy.{Risk, classify_risk}
use ferrous_runtime.Broker.State.{
  Broker, Job, PendingJob, JobSink, Active, ChannelId, Message, Terminal, ApprovalDecision,
  BrokerOutcome, send, sink_channel, release, record_entry, is_connected,
}
use ferrous_runtime.Broker.Worker.{
  begin_job, orphaned, dispatch_risk, start_execution, start_cancelled, start_accepted,
  start_refused, complete, announce_start, park, notify_parked, take_from,
}
use ferrous_runtime.Broker.Tally.{tally, parked, queued, in_runtime, holds}
use ferrous_runtime.Broker.Accounted.{owes, Pays, waiting, keys, queue_ids}
use ferrous_runtime.Broker.Accounted.Ids.{keys-remove-le}
use ferrous_runtime.Broker.Accounted.Calls.{send-Pays, send_terminal-Pays, parked-remove_absent}

module _ {C E : Type 0} (c : ChannelId) where
  module _ (job : Job C) (s : Broker C E) where
    start_cancelled-Pays :
        (d : ApprovalDecision) → Pays c (holds c job.sink) s (start_cancelled job d s)
    unfolding start_cancelled complete release record_entry owes is_connected tally
    start_cancelled-Pays d h = send_terminal-Pays c job.sink Terminal.cancelled s h

    orphaned-Pays : Pays c (holds c job.sink) s (orphaned job s)
    unfolding orphaned release owes is_connected tally
    orphaned-Pays h =
        send_terminal-Pays c job.sink
          (Terminal.denied_with (invalid_transition "session handle disappeared before start")) s h

  announced :
      (n : ℕ) (sink : JobSink) (s : Broker C E)
      → owes c n s ≡ true
      → (owes c n (announce_start sink s) ≡ true) × ((announce_start sink s).active ≡ s.active)
  unfolding announce_start send
  announced n (JobSink.outcome d) s h = (h, refl)
  announced n (JobSink.events d) s h =
      (send-Pays c n d (Message.event SessionEvent.started) s h, ground arith)

  module _ (job : Job C) (s : Broker C E) (idle : s.active ≡ none) where
    start_accepted-Pays :
        (handle : ℕ) (d : ApprovalDecision) (a : Accepted)
        → Pays c (holds c job.sink) s (start_accepted job handle d a s)
    unfolding start_accepted start_refused complete release record_entry owes is_connected tally
    start_accepted-Pays handle d (session, err e) h =
        send_terminal-Pays c job.sink
          (Terminal.denied_with (invalid_transition "session cannot start")) s h
    start_accepted-Pays handle d (session, ok _) h =
        let (told, same) = announced (holds c job.sink) job.sink s h in
        ground (arith, ap (in_runtime c) (same ∙ idle))

    start_execution-Pays :
        (handle : ℕ) (d : ApprovalDecision)
        → Pays c (holds c job.sink) s (start_execution job handle d s)
    unfolding start_execution
    start_execution-Pays handle d h = ground (
      arith,
      start_cancelled-Pays job s d,
      start_accepted-Pays handle d (Session.accept job.session SessionEvent.started),
    )

  -- The question is asked of a session that is parked under an id of its own.
  module _ (id : ℕ) (p : PendingJob C) (s : Broker C E) (absent : keys id s.pending ≡ 0) where
    abbrev entered : Broker C E
    entered = record s { pending = HashMap.insert id p s.pending }

    entered-Pays : Pays c (holds c p.job.sink) s entered
    unfolding owes is_connected tally parked HashMap.insert
    entered-Pays h = ground (arith, parked-remove_absent c id s.pending absent)

    notified :
        (sink : JobSink) (reason : ApprovalReason)
        → owes c 0 entered ≡ true
        → owes c 0 (notify_parked sink reason entered).0 ≡ true
    unfolding notify_parked
    notified (JobSink.outcome d) reason h =
        send-Pays c 0 d (Message.outcome (BrokerOutcome.pending_approval reason)) entered h
    notified (JobSink.events d) reason h =
        send-Pays c 0 d (Message.event (SessionEvent.pending_approval reason)) entered h

    -- Nobody hears of it.
    silent :
        (sink : JobSink) (reason : ApprovalReason)
        → (notify_parked sink reason entered).1 ≡ false
        → ((notify_parked sink reason entered).0 ≡ entered)
          × (is_connected (sink_channel sink) s ≡ false)
    unfolding notify_parked send is_connected
    silent (JobSink.outcome d) reason e = ground arith
    silent (JobSink.events d) reason e = ground arith

    -- The session is taken out again, and nothing is owed on a channel that nobody listens to.
    abbrev withdrawn : Broker C E
    withdrawn = record s { pending = HashMap.remove id (HashMap.insert id p s.pending) }

    withdrawn-Pays :
        is_connected (sink_channel p.job.sink) s ≡ false → Pays c (holds c p.job.sink) s withdrawn
    unfolding owes is_connected tally HashMap.insert HashMap.remove
    withdrawn-Pays gone h =
        let again : keys id (HashMap.remove id s.pending) ≡ 0 =
          omega (arith, keys-remove-le id id s.pending) in
        let kept = parked-remove_absent c id (HashMap.remove id s.pending) again in
        let same_parked = parked-remove_absent c id s.pending absent in
        elim (Bool-cases (sink_channel p.job.sink == c)) [
          | inl same ↦
              let channel : sink_channel p.job.sink ≡ c = ground arith in
              let gone_here : is_connected c s ≡ false =
                subst (λ d. is_connected d s ≡ false) channel gone in
              ground arith
          | inr other ↦ ground arith
        ]

  park-Pays :
      (job : Job C) (reason : ApprovalReason) (now : ℕ) (s : Broker C E)
      → keys job.request.id s.pending ≡ 0
      → Pays c (holds c job.sink) s (park job reason now s)
  unfolding park release owes is_connected tally
  park-Pays job reason now s absent h =
      let asked = (Session.accept job.session (SessionEvent.pending_approval reason)).0 in
      let parked_job : PendingJob C = record {
        job = record job { session = asked };
        deadline = now + s.approval_timeout;
      } in
      let id = job.request.id in
      let u = entered id parked_job s absent in
      elim (Bool-cases (notify_parked job.sink reason u).1) [
        | inl heard ↦
            rw (heard, park)
              (notified id parked_job s absent job.sink reason
                (entered-Pays id parked_job s absent h))
        | inr unheard ↦
            let (unchanged, gone) = silent id parked_job s absent job.sink reason unheard in
            rw (unheard, park)
              (subst (λ v. owes c 0 (record v { pending = HashMap.remove id v.pending }) ≡ true)
                (sym unchanged) (withdrawn-Pays id parked_job s absent gone h))
      ]

  module _ (job : Job C) (s : Broker C E) (idle : s.active ≡ none) where
    dispatch_risk-Pays :
        (risk : Risk) (handle now : ℕ)
        → keys job.request.id s.pending ≡ 0
        → Pays c (holds c job.sink) s (dispatch_risk risk job handle now s)
    unfolding dispatch_risk
    dispatch_risk-Pays Risk.auto_approve handle now absent h =
        start_execution-Pays job s idle handle job.admission h
    dispatch_risk-Pays (Risk.requires_approval reason) handle now absent h = ground (
      arith,
      start_execution-Pays job s idle handle ApprovalDecision.approved h,
      park-Pays job reason now s absent h,
    )

    begin_job-Pays :
        (now : ℕ)
        → keys job.request.id s.pending ≡ 0
        → Pays c (holds c job.sink) s (begin_job now job s)
    unfolding begin_job
    begin_job-Pays now absent h = elim (Option-cases (HashMap.get job.request.id s.handles)) [
      | inl e ↦ rw (e, begin_job) (orphaned-Pays job s h)
      | inr (handle, e) ↦
          rw (e, begin_job) (dispatch_risk-Pays (classify_risk job.request) handle now absent h)
    ]

  next-Owes :
      (job : Job C) (rest : List (Job C)) (s : Broker C E)
      → s.queue ≡ job ∷ rest
      → owes c 0 s ≡ true
      → owes c (holds c job.sink) (record s { queue = rest }) ≡ true
  unfolding owes is_connected tally queued
  next-Owes job rest s e h = ground (arith, ap (queued c) e)

  -- The worker takes a job whose id no other waiting session has.
  pub take_from-Pays :
      (now : ℕ) (o : Option (Active C)) (jobs : List (Job C)) (s : Broker C E)
      → s.active ≡ o
      → s.queue ≡ jobs
      → ((i : ℕ) → waiting i s ≤ 1)
      → Pays c 0 s (take_from now o jobs s)
  unfolding take_from waiting queue_ids
  take_from-Pays now none (job ∷ rest) s idle e alone h =
      begin_job-Pays job (record s { queue = rest }) idle now
        (ground (arith, alone job.request.id, ap (queue_ids job.request.id) e))
        (next-Owes job rest s e h)
  take_from-Pays now none [] s idle e alone h = h
  take_from-Pays now (some a) jobs s idle e alone h = h
