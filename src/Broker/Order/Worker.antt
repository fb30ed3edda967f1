-- ===== src/Broker/Order/Worker.antt =====
-- The order of messages in the worker of crates/wasi-runtime/src/broker.rs.
use ferrous_runtime.Prelude.{
  ◌≡◌, ◌==◌, ◌∷◌, ◌+◌, ◌≤◌, [], ℕ, List, Option, true, false, all, some, none, ltb, arith, inl, inr,
  Option-cases, Bool-cases, refl, sym, subst, ap, ◌∙◌,
}
use ferrous_runtime.HashMap
use ferrous_runtime.Command.Session
use ferrous_runtime.Command.Session.{SessionEvent, Accepted, Stream}
use ferrous_runtime.Command.Request.{ApprovalReason}
use ferrous_runtime.Policy.{Risk, classify_risk}
use ferrous_runtime.Broker.State.{
  Broker, BrokerOutcome, Message, Job, PendingJob, JobSink, Active, ChannelId, ApprovalDecision,
  sink_channel, is_connected, release, send,
}
use ferrous_runtime.Broker.Worker.{
  notify_parked, park, dispatch_risk, begin_job, take_from, is_approved,
}
use ferrous_runtime.Broker.Tally.{tally, one_if, queued, parked-remove-le}
use ferrous_runtime.Broker.Order.{
  signal, after, stage, is_fresh, fits_queued, queued_fits, parked_fits, stage_of, holders, ordered,
  KeepsOrdered, Owns, asks, asked,
}
use ferrous_runtime.Broker.Order.Calls.{taken-KeepsOrdered}
use ferrous_runtime.Broker.Order.Send.{
  Owns_weaken, parked_fits_none, queued_fits_none, active_fits_none,
}
use ferrous_runtime.Broker.Order.Start.{
  waits, queued_waits, orphaned-KeepsOrdered, start_execution-KeepsOrdered,
}

module _ {C E : Type 0} (c : ChannelId) where
  -- A session is parked, and its receiver is asked.
  module _ (id : ℕ) (p : PendingJob C) (reason : ApprovalReason) (s : Broker C E) where
    abbrev entered : Broker C E
    entered = record s { pending = HashMap.insert id p s.pending }

    abbrev asked_on : JobSink → Broker C E
    asked_on sink = (notify_parked sink reason entered).0

    ask_here :
        (m : Message E)
        → signal m ≡ asks
        → sink_channel p.job.sink ≡ c
        → (holders c s ≡ 0)
          × (ltb c s.next_channel ≡ true)
          × (is_connected c s ≡ true → is_fresh (stage_of c s) ≡ true)
        → KeepsOrdered c s (send c m entered).0
    unfolding send ordered is_connected stage after HashMap.insert
    ask_here m asking channel (none_left, opened, known) k = ground (
      arith,
      ap (after (stage_of c s)) asking,
      queued_fits_none c asked s.queue (omega arith),
      parked_fits_none c asked (HashMap.remove id s.pending)
          (omega (arith, parked-remove-le c id s.pending)),
      active_fits_none c asked s.active (omega arith),
    )

    ask_own :
        (sink : JobSink)
        → p.job.sink ≡ sink
        → (sink_channel sink == c) ≡ true
        → Owns c is_fresh sink s
        → KeepsOrdered c s (asked_on sink)
    unfolding notify_parked
    ask_own (JobSink.outcome d) e same own k =
        let channel : d ≡ c = ground arith in
        let m : Message E = Message.outcome (BrokerOutcome.pending_approval reason) in
        subst (λ x. ordered c (send x m entered).0 ≡ true) (sym channel)
          (ask_here m refl (ap sink_channel e ∙ channel) (own same) k)
    ask_own (JobSink.events d) e same own k =
        let channel : d ≡ c = ground arith in
        let m : Message E = Message.event (SessionEvent.pending_approval reason) in
        subst (λ x. ordered c (send x m entered).0 ≡ true) (sym channel)
          (ask_here m refl (ap sink_channel e ∙ channel) (own same) k)

    ask_other :
        (sink : JobSink)
        → p.job.sink ≡ sink
        → (sink_channel sink == c) ≡ false
        → KeepsOrdered c s (asked_on sink)
    unfolding notify_parked send ordered is_connected stage HashMap.insert
    ask_other (JobSink.outcome d) e other k = ground (
      arith,
      ap (λ u. sink_channel u == c) e,
      HashMap.all-remove (parked_fits c (stage_of c s)) id s.pending,
    )
    ask_other (JobSink.events d) e other k = ground (
      arith,
      ap (λ u. sink_channel u == c) e,
      HashMap.all-remove (parked_fits c (stage_of c s)) id s.pending,
    )

    ask-KeepsOrdered :
        (sink : JobSink)
        → p.job.sink ≡ sink
        → Owns c is_fresh sink s
        → KeepsOrdered c s (asked_on sink)
    ask-KeepsOrdered sink e own k = elim (Bool-cases (sink_channel sink == c)) [
      | inl same ↦ ask_own sink e same own k
      | inr other ↦ ask_other sink e other k
    ]

  park-KeepsOrdered :
      (job : Job C) (reason : ApprovalReason) (now : ℕ) (s : Broker C E)
      → Owns c is_fresh job.sink s
      → KeepsOrdered c s (park job reason now s)
  unfolding park release ordered is_connected
  park-KeepsOrdered job reason now s own k =
      let asked = (Session.accept job.session (SessionEvent.pending_approval reason)).0 in
      let parked_job : PendingJob C = record {
        job = record job { session = asked };
        deadline = now + s.approval_timeout;
      } in
      let id = job.request.id in
      let told = ask-KeepsOrdered id parked_job reason s job.sink refl own k in
      ground (arith, told, taken-KeepsOrdered c id (asked_on id parked_job reason s job.sink) told)

  dispatch_risk-KeepsOrdered :
      (risk : Risk) (job : Job C) (handle now : ℕ) (s : Broker C E)
      → Owns c (fits_queued job) job.sink s
      → KeepsOrdered c s (dispatch_risk risk job handle now s)
  unfolding dispatch_risk
  dispatch_risk-KeepsOrdered Risk.auto_approve job handle now s own k =
      start_execution-KeepsOrdered c job handle job.admission s
        (Owns_weaken c (fits_queued job) waits job.sink s (queued_waits job) own) k
  dispatch_risk-KeepsOrdered (Risk.requires_approval reason) job handle now s own k =
      elim (Bool-cases (is_approved job.admission)) [
        | inl e ↦
            rw (e, dispatch_risk)
              (start_execution-KeepsOrdered c job handle ApprovalDecision.approved s
                (Owns_weaken c (fits_queued job) waits job.sink s (queued_waits job) own) k)
        | inr e ↦
            rw (e, dispatch_risk)
              (park-KeepsOrdered job reason now s
                (Owns_weaken c (fits_queued job) is_fresh job.sink s (λ st h. ground arith) own) k)
      ]

  begin_job-KeepsOrdered :
      (job : Job C) (now : ℕ) (s : Broker C E)
      → Owns c (fits_queued job) job.sink s
      → KeepsOrdered c s (begin_job now job s)
  unfolding begin_job
  begin_job-KeepsOrdered job now s own k =
      elim (Option-cases (HashMap.get job.request.id s.handles)) [
        | inl e ↦
            rw (e, begin_job)
              (orphaned-KeepsOrdered c job s
                (Owns_weaken c (fits_queued job) waits job.sink s (queued_waits job) own) k)
        | inr (handle, e) ↦
            rw (e, begin_job)
              (dispatch_risk-KeepsOrdered (classify_risk job.request) job handle now s own k)
      ]

  module _ (job : Job C) (rest : List (Job C)) (s : Broker C E) (e : s.queue ≡ job ∷ rest) where
    next-ordered : KeepsOrdered c s (record s { queue = rest })
    unfolding ordered is_connected
    next-ordered k = ground (arith, ap (λ q. all (queued_fits c (stage_of c s)) q) e)

    next-Owns :
        tally c s ≤ one_if (ltb c s.next_channel)
        → ordered c s ≡ true
        → Owns c (fits_queued job) job.sink (record s { queue = rest })
    unfolding ordered is_connected tally queued
    next-Owns once k same = (
      ground (arith, ap (queued c) e),
      ground (arith, ap (queued c) e),
      λ h. ground (arith, ap (λ q. all (queued_fits c (stage_of c s)) q) e),
    )

  pub take_from-KeepsOrdered :
      (now : ℕ) (o : Option (Active C)) (jobs : List (Job C)) (s : Broker C E)
      → s.queue ≡ jobs
      → tally c s ≤ one_if (ltb c s.next_channel)
      → KeepsOrdered c s (take_from now o jobs s)
  unfolding take_from
  take_from-KeepsOrdered now none (job ∷ rest) s e once k =
      let next = record s { queue = rest } in
      begin_job-KeepsOrdered job now next (next-Owns job rest s e once k)
        (next-ordered job rest s e k)
  take_from-KeepsOrdered now none [] s e once k = k
  take_from-KeepsOrdered now (some a) jobs s e once k = k
