-- ===== src/Cancel.antt =====
-- crates/wasi-runtime/src/cancel.rs. A `CancelHandle` is a reference to a shared flag: handles are
-- numbers, clones are equal numbers, and the store knows the flags that have been set.
use ferrous_runtime.Prelude.{ℕ, ◌+◌, Bool, List, [], ◌∷◌, any, ◌==◌}

abbrev pub CancelHandle : Type 0
CancelHandle = ℕ

pub record Flags : Type 0 where
  pub next : ℕ
  pub set : List CancelHandle

abbrev pub no_flags : Flags
no_flags = record { next = 0; set = [] }

-- `CancelHandle::new`: a flag that no other handle shares, not yet set.
unfoldable pub new : Flags → CancelHandle × Flags
new flags = (flags.next, record flags { next = flags.next + 1 })

unfoldable pub cancel : CancelHandle → Flags → Flags
cancel handle flags = record flags { set = handle ∷ flags.set }

unfoldable pub is_cancelled : CancelHandle → Flags → Bool
is_cancelled handle flags = any (λ h. h == handle) flags.set
