-- ===== src/Tests/Unit/Trail.antt =====
-- The test in crates/wasi-runtime/src/broker.rs that fills the audit trail beyond its bound.
use ferrous_runtime.Prelude.{
  ◌≡◌, ◌&&◌, ◌∷◌, ◌==◌, ◌+◌, ◌-◌, ◌∙◌, [], Bool, true, false, ℕ, zero, suc, List, length, refl, ap,
}
use ferrous_runtime.Text.{text}
use ferrous_runtime.Command.Request.{agent}
use ferrous_runtime.Broker.State.{
  AuditEntry, ApprovalDecision, AuditOutcome, default_max_audit_entries,
}
use ferrous_runtime.Broker.Audit.{push_all, latest, push_all-empty}

abbrev total : ℕ
total = default_max_audit_entries + 5

-- The entries of the test, with ids from a number on.
unfoldable numbered : ℕ → ℕ → List AuditEntry
numbered zero id = []
numbered (suc count) id =
    (record {
      id = id;
      actor = agent;
      program = text "tool";
      decision = ApprovalDecision.auto_approved;
      outcome = AuditOutcome.completed 0;
    })
    ∷ numbered count (suc id)

abbrev starts_at : ℕ → List AuditEntry → Bool
starts_at id [] = false
starts_at id (entry ∷ entries) = entry.id == id

unfoldable ends_at : ℕ → List AuditEntry → Bool
ends_at id [] = false
ends_at id (entry ∷ []) = entry.id == id
ends_at id (entry ∷ next ∷ entries) = ends_at id (next ∷ entries)

abbrev keeps_at_most : List AuditEntry → Bool
keeps_at_most trail =
    length trail == default_max_audit_entries && starts_at 5 trail && ends_at (total - 1) trail

-- Every `record` pushes one entry.
abbrev audit_trail_keeps_at_most_max_entries : Bool
audit_trail_keeps_at_most_max_entries = keeps_at_most (push_all (numbered total 0) [])

kept : keeps_at_most (latest (numbered total 0)) ≡ true
unfolding latest numbered ends_at
kept = refl

trail_passes : audit_trail_keeps_at_most_max_entries ≡ true
trail_passes = ap keeps_at_most (push_all-empty (numbered total 0)) ∙ kept
