-- ===== src/Broker/Audit.antt =====
-- The audit trail of crates/wasi-runtime/src/broker.rs against everything that was recorded.
use ferrous_runtime.Prelude.{
  ◌≡◌, List, ℕ, drop, length, ◌∷◌, ◌++◌, [], ◌-◌, suc, ◌≤◌, ap, ◌∙◌, sym, arith, append-nil, zero,
  length-drop, append_assoc, refl, length-append, ◌<◌, dec_lt, drop-append,
}
use ferrous_runtime.Broker.State.{push_entry, AuditEntry, default_max_audit_entries}

-- The last entries, as many as the trail may have.
unfoldable pub latest : List AuditEntry → List AuditEntry
latest entries = drop (length entries - default_max_audit_entries) entries

unfoldable pub push_all : List AuditEntry → List AuditEntry → List AuditEntry
push_all [] audit = audit
push_all (entry ∷ entries) audit = push_all entries (push_entry entry audit)

drop-suc {ℓ} : {A : Type ℓ} (n : ℕ) (xs : List A) → drop 1 (drop n xs) ≡ drop (suc n) xs
drop-suc zero xs = refl
drop-suc (suc n) [] = refl
drop-suc (suc n) (x ∷ xs) = drop-suc n xs

pub length-push_entry :
    (entry : AuditEntry) (audit : List AuditEntry)
    → length (push_entry entry audit) ≤ default_max_audit_entries
unfolding push_entry
length-push_entry entry audit =
    let pushed = audit ++ entry ∷ [] in
    ground (arith, length-drop (length pushed - default_max_audit_entries) pushed)

push_entry-full :
    (entry : AuditEntry) (audit : List AuditEntry)
    → length audit ≡ default_max_audit_entries
    → push_entry entry audit ≡ drop 1 audit ++ entry ∷ []
unfolding push_entry
push_entry-full entry audit h =
    let pushed = audit ++ entry ∷ [] in
    let one : length pushed - default_max_audit_entries ≡ 1 =
      omega (arith, length-append audit (entry ∷ [])) in
    let dropped = ap (λ k. drop k pushed) one ∙ drop-append 1 audit (entry ∷ []) (omega arith) in
    ground (arith, dropped, length-append audit (entry ∷ []))

push_entry-room :
    (entry : AuditEntry) (audit : List AuditEntry)
    → length audit < default_max_audit_entries
    → push_entry entry audit ≡ audit ++ entry ∷ []
unfolding push_entry
push_entry-room entry audit h = ground (arith, length-append audit (entry ∷ []))

latest-room :
    (entries : List AuditEntry)
    → length entries ≤ default_max_audit_entries
    → latest entries ≡ entries
unfolding latest
latest-room entries h =
    let none_over : length entries - default_max_audit_entries ≡ 0 = omega arith in
    ap (λ k. drop k entries) none_over

push_entry-latest :
    (entry : AuditEntry) (entries : List AuditEntry)
    → push_entry entry (latest entries) ≡ latest (entries ++ entry ∷ [])
unfolding latest
push_entry-latest entry entries = elim (dec_lt (length entries) default_max_audit_entries) [
  | yes room ↦
      ap (push_entry entry) (latest-room entries (omega arith))
      ∙ push_entry-room entry entries room
      ∙ sym
          (latest-room (entries ++ entry ∷ []) (omega (arith, length-append entries (entry ∷ []))))
  | no full ↦
      let over = length entries - default_max_audit_entries in
      let one_more : length (entries ++ entry ∷ []) - default_max_audit_entries ≡ suc over =
        omega (arith, length-append entries (entry ∷ [])) in
      push_entry-full entry (latest entries) (omega (arith, length-drop over entries))
      ∙ ap (λ xs. xs ++ entry ∷ []) (drop-suc over entries)
      ∙ sym (drop-append (suc over) entries (entry ∷ []) (omega arith))
      ∙ sym (ap (λ k. drop k (entries ++ entry ∷ [])) one_more)
]

push_all-latest :
    (entries before : List AuditEntry)
    → push_all entries (latest before) ≡ latest (before ++ entries)
unfolding push_all
push_all-latest [] before = ap latest (sym (append-nil before))
push_all-latest (entry ∷ entries) before =
    ap (push_all entries) (push_entry-latest entry before)
    ∙ push_all-latest entries (before ++ entry ∷ [])
    ∙ ap latest (append_assoc before (entry ∷ []) entries)

-- Recording entries one after another into an empty trail leaves exactly the latest 4096 of them, in
-- the order in which they were recorded: no entry is lost before 4096 newer ones have come.
pub push_all-empty : (entries : List AuditEntry) → push_all entries [] ≡ latest entries
unfolding latest
push_all-empty entries = push_all-latest entries []
