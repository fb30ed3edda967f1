-- ===== src/Runtime/Watchdog/Deadline.antt =====
-- The epoch and the deadline under the watchdog of crates/wasi-runtime/src/lib.rs.
use ferrous_runtime.Prelude.{
  refl, false, Bool, ℕ, true, List, ◌≡◌, all, ◌∷◌, ◌≤◌, arith, min, ◌+◌, [], length, ◌++◌,
}
use ferrous_runtime.Runtime.Watchdog.{Watch, Round, Received, round, watchdog, burst}

abbrev pub begin : Watch
begin = record { ticks = 0; epoch = 0; returned = false }

-- A round that neither sees a cancellation nor hears of the guest's end.
abbrev pub is_quiet : Round → Bool
is_quiet (false, Received.timeout) = true
is_quiet _ = false

watchdog_returned :
    (n : ℕ) (rounds : List Round) (w : Watch) → w.returned ≡ true → watchdog n rounds w ≡ w
unfolding watchdog
watchdog_returned n [] w h = refl
watchdog_returned n (r ∷ rounds) w h = ground (arith, watchdog_returned n rounds w)

-- Undisturbed, the epoch advances by one for each round, up to the deadline and not past it, and the
-- watchdog has returned only if the deadline is reached.
quiet_epoch :
    (n : ℕ) (rounds : List Round) (w : Watch)
    → all is_quiet rounds ≡ true
    → w.epoch ≡ w.ticks
    → w.ticks ≤ n
    → w.returned ≡ false
    → (watchdog n rounds w).epoch ≡ min n (w.epoch + length rounds)
unfolding watchdog round
quiet_epoch n [] w q e l r = omega arith
quiet_epoch n ((false, Received.timeout) ∷ rounds) w q e l r = ground (
  arith,
  quiet_epoch n rounds (record w { epoch = w.epoch + 1; ticks = w.ticks + 1 }),
  watchdog_returned n rounds (record w { returned = true }),
)
quiet_epoch n (r' ∷ rounds) w q e l r = cc

-- While the guest runs and nobody cancels it, each timeout of the watchdog moves the epoch by one,
-- until the deadline: after `k` rounds the epoch has moved by the smaller of `k` and the deadline.
pub watchdog-quiet :
    (n : ℕ) (rounds : List Round)
    → all is_quiet rounds ≡ true
    → (watchdog n rounds begin).epoch ≡ min n (length rounds)
watchdog-quiet n rounds q = omega (arith, quiet_epoch n rounds begin q refl (omega arith) refl)

cancelled_epoch :
    (n : ℕ) (rounds rest : List Round) (x : Received) (w : Watch)
    → all is_quiet rounds ≡ true
    → w.epoch ≡ w.ticks
    → w.ticks ≤ n
    → w.returned ≡ false
    → (n ≤ (watchdog n (rounds ++ (true, x) ∷ rest) w).epoch)
      × ((watchdog n (rounds ++ (true, x) ∷ rest) w).epoch ≤ n + n)
unfolding watchdog round
cancelled_epoch n [] rest x w q e l r =
    ground (arith, watchdog_returned n rest (record w { epoch = burst n w.epoch; returned = true }))
cancelled_epoch n ((false, Received.timeout) ∷ rounds) rest x w q e l r = ground (
  arith,
  cancelled_epoch n rounds rest x (record w { epoch = w.epoch + 1; ticks = w.ticks + 1 }),
  watchdog_returned n (rounds ++ (true, x) ∷ rest) (record w { returned = true }),
)
cancelled_epoch n (r' ∷ rounds) rest x w q e l r = cc

-- A session that is cancelled while its guest runs finds its deadline passed at once: the epoch has
-- moved by the deadline at least, and by twice the deadline at most.
pub watchdog-cancelled :
    (n : ℕ) (rounds rest : List Round) (x : Received)
    → all is_quiet rounds ≡ true
    → (n ≤ (watchdog n (rounds ++ (true, x) ∷ rest) begin).epoch)
      × ((watchdog n (rounds ++ (true, x) ∷ rest) begin).epoch ≤ n + n)
watchdog-cancelled n rounds rest x q =
    cancelled_epoch n rounds rest x begin q refl (omega arith) refl
