-- ===== src/Broker/Order/Apart.antt =====
-- The order of the messages of crates/wasi-runtime/src/broker.rs, apart from the ends, and apart from
-- the questions. `process_job` enters a session into the parked ones before it sends the question, so
-- an end can overtake the question; the order among the others does not depend on that.
use ferrous_runtime.Prelude.{
  ◌≡◌, ◌==◌, ◌∷◌, [], List, Bool, true, false, not, arith, refl, if◌then◌else◌, Bool-cases, inl,
  inr,
}
use ferrous_runtime.Broker.State.{ChannelId, Message}
use ferrous_runtime.Broker.Order.{
  Signal, Stage, signal, after, stage, stage_without, is_broken, is_fresh, is_asked, is_running,
  is_end, is_question, asks, starts, shows, exits, ends, fresh, asked, running, ended, broken,
}

-- Without the questions, a receiver that was asked and one that was not know the same.
abbrev unasked : Stage → Stage
unasked asked = fresh
unasked st = st

unasked-after :
    (st : Stage) (g : Signal)
    → is_broken (after st g) ≡ false
    → (if not (is_question g) then after (unasked st) g else unasked st) ≡ unasked (after st g)
unfolding after
unasked-after fresh asks h = refl
unasked-after fresh starts h = refl
unasked-after fresh ends h = refl
unasked-after asked starts h = refl
unasked-after asked ends h = refl
unasked-after running shows h = refl
unasked-after running exits h = refl
unasked-after running ends h = refl
unasked-after st g h = cc

unasked_unbroken : (st : Stage) → is_broken st ≡ false → is_broken (unasked st) ≡ false
unasked_unbroken asked h = refl
unasked_unbroken fresh h = refl
unasked_unbroken running h = refl
unasked_unbroken ended h = refl
unasked_unbroken broken h = h

-- Without the ends, a receiver knows what it knew before the end.
abbrev fits_without_ends : Stage → Stage → Bool
fits_without_ends fresh st = is_fresh st
fits_without_ends asked st = is_asked st
fits_without_ends running st = is_running st
fits_without_ends ended st = not (is_broken st)
fits_without_ends broken st = true

fits_without_ends-after :
    (st st' : Stage) (g : Signal)
    → is_broken (after st g) ≡ false
    → fits_without_ends st st' ≡ true
    → fits_without_ends (after st g) (if not (is_end g) then after st' g else st') ≡ true
unfolding after
fits_without_ends-after fresh fresh asks h k = refl
fits_without_ends-after fresh fresh starts h k = refl
fits_without_ends-after fresh fresh ends h k = refl
fits_without_ends-after asked asked starts h k = refl
fits_without_ends-after asked asked ends h k = refl
fits_without_ends-after running running shows h k = refl
fits_without_ends-after running running exits h k = refl
fits_without_ends-after running running ends h k = refl
fits_without_ends-after st st' g h k = cc

fits_unbroken :
    (st st' : Stage)
    → is_broken st ≡ false
    → fits_without_ends st st' ≡ true
    → is_broken st' ≡ false
fits_unbroken fresh fresh h k = refl
fits_unbroken asked asked h k = refl
fits_unbroken running running h k = refl
fits_unbroken ended st h k = ground arith
fits_unbroken st st' h k = cc

unbroken_before : (st : Stage) (g : Signal) → is_broken (after st g) ≡ false → is_broken st ≡ false
unfolding after
unbroken_before broken g h = h
unbroken_before fresh g h = refl
unbroken_before asked g h = refl
unbroken_before running g h = refl
unbroken_before ended g h = refl

module _ {E : Type 0} (c : ChannelId) where
  without_questions :
      (sent : List (ChannelId × Message E))
      → is_broken (stage c sent) ≡ false
      → stage_without is_question c sent ≡ unasked (stage c sent)
  unfolding stage stage_without
  without_questions [] h = refl
  without_questions ((d, m) ∷ sent) h = elim (Bool-cases (d == c)) [
    | inr e ↦ rw (e, stage, stage_without) (without_questions sent (rw (e, stage) at h))
    | inl e ↦
        let unbroken : is_broken (after (stage c sent) (signal m)) ≡ false = rw (e, stage) at h in
        let before = without_questions sent (unbroken_before (stage c sent) (signal m) unbroken) in
        rw (e, stage, stage_without, before) (unasked-after (stage c sent) (signal m) unbroken)
  ]

  without_ends :
      (sent : List (ChannelId × Message E))
      → is_broken (stage c sent) ≡ false
      → fits_without_ends (stage c sent) (stage_without is_end c sent) ≡ true
  unfolding stage stage_without
  without_ends [] h = refl
  without_ends ((d, m) ∷ sent) h = elim (Bool-cases (d == c)) [
    | inr e ↦ rw (e, stage, stage_without) (without_ends sent (rw (e, stage) at h))
    | inl e ↦
        let unbroken : is_broken (after (stage c sent) (signal m)) ≡ false = rw (e, stage) at h in
        let before = without_ends sent (unbroken_before (stage c sent) (signal m) unbroken) in
        rw (e, stage, stage_without)
          (fits_without_ends-after (stage c sent) (stage_without is_end c sent) (signal m) unbroken
            before)
  ]

  -- Messages in order are in order apart from the questions, and apart from the ends.
  pub in_order_apart :
      (sent : List (ChannelId × Message E))
      → is_broken (stage c sent) ≡ false
      → (is_broken (stage_without is_question c sent) ≡ false)
        × (is_broken (stage_without is_end c sent) ≡ false)
  in_order_apart sent h = (
    rw (without_questions sent h) (unasked_unbroken (stage c sent) h),
    fits_unbroken (stage c sent) (stage_without is_end c sent) h (without_ends sent h),
  )
