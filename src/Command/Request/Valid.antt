-- ===== src/Command/Request/Valid.antt =====
-- The requests that `CommandRequest::validate` of crates/wasi-runtime/src/command.rs lets pass.
use ferrous_runtime.Prelude.{
  ◌≡◌, ◌≢◌, ◌==◌, [], ◌∷◌, List, Bool, ok, false, true, not, ◌||◌, arith, ◌↔◌, Memᴰ, any, All,
  any-mem, mem-any, Bool-cases, inl, inr, is_empty, refl, subst,
}
use ferrous_runtime.Text.{Text}
use ferrous_runtime.Capability.Grant.{CapabilityGrant, allows_native_execution}
use ferrous_runtime.Capability.Filesystem.{FilesystemGrant, allows}
use ferrous_runtime.Capability.Grant
use ferrous_runtime.Command.Request.{
  CommandRequest, ExecutionMode, validate, contains_nul, is_native, native, wasi,
}

-- No character of the text is NUL.
abbrev pub IsClean : Text → Type 0
IsClean t = ¬ Memᴰ 0 t

-- A request that can be run: its program is not the empty text, no character of its texts is NUL,
-- native execution was granted if it is asked for, and some granted root allows its working directory.
pub record IsValid (r : CommandRequest) : Type 0 where
  pub program_named : r.program ≢ []
  pub program_clean : IsClean r.program
  pub args_clean : All IsClean r.args
  pub native_granted : r.mode ≡ native → r.grant.native_execution ≡ true
  pub cwd_granted : (f : FilesystemGrant) × Memᴰ f r.grant.filesystems × (allows f r.cwd ≡ true)

IsClean-contains_nul : (t : Text) → IsClean t → contains_nul t ≡ false
unfolding contains_nul
IsClean-contains_nul t clean = elim (Bool-cases (contains_nul t)) [
  | inr e ↦ e
  | inl e ↦
      let (c, m, zero_char) = mem-any (λ x. x == 0) t e in
      absurd (clean (subst (λ x. Memᴰ x t) (ground arith) m))
]

contains_nul-IsClean : (t : Text) → contains_nul t ≡ false → IsClean t
unfolding contains_nul
contains_nul-IsClean t e m = let found = any-mem (λ x. x == 0) m refl in cc

All-IsClean : (ts : List Text) → any contains_nul ts ≡ false → All IsClean ts
All-IsClean [] e = tt
All-IsClean (t ∷ ts) e = (contains_nul-IsClean t (ground arith), All-IsClean ts (ground arith))

any-contains_nul : (ts : List Text) → All IsClean ts → any contains_nul ts ≡ false
any-contains_nul [] h = refl
any-contains_nul (t ∷ ts) (h, hs) = ground (arith, IsClean-contains_nul t h, any-contains_nul ts hs)

named : (t : Text) → t ≢ [] → is_empty t ≡ false
named [] h = absurd (h refl)
named (c ∷ t) h = refl

unnamed : (t : Text) → is_empty t ≡ false → t ≢ []
unnamed t h e = let empty : is_empty t ≡ true = rw e refl in cc

may_be_native :
    (mode : ExecutionMode) (granted : Bool)
    → (mode ≡ native → granted ≡ true)
    → (not (is_native mode) || granted) ≡ true
may_be_native native granted h = ground (arith, h refl)
may_be_native wasi granted h = refl

validate-IsValid : (r : CommandRequest) → validate r ≡ ok tt → IsValid r
unfolding validate Grant.allows_path Grant.allows_native_execution
validate-IsValid r e = record {
  program_named = unnamed r.program (ground arith);
  program_clean = contains_nul-IsClean r.program (ground arith);
  args_clean = All-IsClean r.args (ground arith);
  native_granted = λ is_native_mode. ground arith;
  cwd_granted = mem-any (λ f. allows f r.cwd) r.grant.filesystems (ground arith);
}

valid-validate : (r : CommandRequest) → IsValid r → validate r ≡ ok tt
unfolding validate Grant.allows_path Grant.allows_native_execution
valid-validate r v =
    let (f, granted, inside) = v.cwd_granted in
    ground (
      arith,
      named r.program v.program_named,
      IsClean-contains_nul r.program v.program_clean,
      any-contains_nul r.args v.args_clean,
      may_be_native r.mode r.grant.native_execution v.native_granted,
      any-mem (λ g. allows g r.cwd) granted inside,
    )

-- A request passes validation exactly when its program is not empty, no character of the program or
-- of an argument is NUL, its grant allows native execution if it asks for it, and one of the granted
-- roots allows its working directory.
pub validate-exact : (r : CommandRequest) → (validate r ≡ ok tt) ↔ IsValid r
validate-exact r = (validate-IsValid r, valid-validate r)
