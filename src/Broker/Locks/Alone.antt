-- ===== src/Broker/Locks/Alone.antt =====
-- A thread of crates/wasi-runtime/src/broker.rs that no other interrupts.
pub mod Submit
pub mod Calls
pub mod Worker
pub mod Whole
use ferrous_runtime.Prelude.{◌≡◌, ◌∷◌, ◌++◌, ◌∙◌, [], ℕ, List, refl, zero, suc, ap}
use ferrous_runtime.Broker.State.{
  Broker, Job, ApprovalDecision, AuditOutcome, AuditEntry, Terminal, record_entry, release,
}
use ferrous_runtime.Broker.Calls.{close_parked}
use ferrous_runtime.Broker.Locks.{Task, access, tell, release_handle, record_end}
use ferrous_runtime.Broker.Locks.System.{advance}

module _ {C E : Type 0} where
  -- The next accesses of a thread, all at one time and without another thread between them.
  unfoldable pub advance_many : ℕ → ℕ → List (Task C) → Broker C E → Broker C E × List (Task C)
  unfolding advance
  advance_many zero now tasks s = (s, tasks)
  advance_many (suc n) now tasks s =
      let (s', tasks') = advance now tasks s in advance_many n now tasks' s'

  module _ (now : ℕ) where
    pub idle : (n : ℕ) (s : Broker C E) → advance_many n now [] s ≡ (s, [])
    unfolding advance_many
    idle zero s = refl
    idle (suc n) s = idle n s

    -- What an access answers is what the thread goes on with.
    pub next :
        (n : ℕ) (task : Task C) (rest : List (Task C)) (s : Broker C E) {more : List (Task C)}
        {s' : Broker C E}
        → access now task s ≡ (s', more)
        → advance_many (suc n) now (task ∷ rest) s ≡ advance_many n now (more ++ rest) s'
    unfolding advance_many
    next n task rest s e = ap (λ p. let (s', more) = p in advance_many n now (more ++ rest) s') e

    -- The end of a session that never runs takes three accesses.
    pub tell_alone :
        (n id : ℕ) (job : Job C) (t : Terminal) (d : ApprovalDecision) (o : AuditOutcome)
        (rest : List (Task C)) (s : Broker C E)
        → advance_many (suc (suc (suc n))) now (tell id job t d o ∷ rest) s
          ≡ advance_many n now rest (close_parked id job t d o s)
    unfolding advance_many access close_parked
    tell_alone n id job t d o rest s = refl

    pub release_alone :
        (n id : ℕ) (s : Broker C E)
        → advance_many (suc n) now (release_handle id ∷ []) s ≡ (release id s, [])
    unfolding advance_many access
    release_alone n id s = idle n (release id s)

    pub tell_last :
        (n id : ℕ) (job : Job C) (t : Terminal) (d : ApprovalDecision) (o : AuditOutcome)
        (s : Broker C E)
        → advance_many (suc (suc (suc n))) now (tell id job t d o ∷ []) s
          ≡ (close_parked id job t d o s, [])
    tell_last n id job t d o s =
        tell_alone n id job t d o [] s ∙ idle n (close_parked id job t d o s)
