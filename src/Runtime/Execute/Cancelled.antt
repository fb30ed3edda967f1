-- ===== src/Runtime/Execute/Cancelled.antt =====
-- When a run of crates/wasi-runtime/src/lib.rs reports that it was cancelled.
use ferrous_runtime.Prelude.{
  ◌≡◌, ◌>>=◌, Result, map_err, Bool, false, err, ok, arith, ℕ, none, true, List, refl, Option, ◌∷◌,
  Option-cases, inl, inr, suc, [], ◌&&◌, sym, subst, ◌∙◌, ap,
}
use ferrous_runtime.Runtime.Store.{
  cancelled, Host, RuntimeError, admit, mount_grants, build_store, fail_if, Store,
}
use ferrous_runtime.Command.Request.{CommandRequest}
use ferrous_runtime.FilePath.{FilePath}
use ferrous_runtime.Capability.Filesystem.{FilesystemGrant}
use ferrous_runtime.Text.{Text}
use ferrous_runtime.Runtime.Execute.{
  RunResult, conclude, trapped, GuestRun, run_wasi_inner, succeeded, reported_failure,
}

-- Whether a result reports a cancellation.
abbrev says_cancelled : {E A : Type 0} → Result (RuntimeError E) A → Bool
says_cancelled (err cancelled) = true
says_cancelled _ = false

bind_uncancelled :
    {E A B : Type 0} (m : Result (RuntimeError E) A) (f : A → Result (RuntimeError E) B)
    → says_cancelled m ≡ false
    → ((a : A) → says_cancelled (f a) ≡ false)
    → says_cancelled (m >>= f) ≡ false
bind_uncancelled (ok a) f h k = k a
bind_uncancelled (err e) f h k = ground arith

map_wasi_uncancelled :
    {E A : Type 0} (m : Result E A) → says_cancelled (map_err RuntimeError.wasi m) ≡ false
map_wasi_uncancelled (ok a) = refl
map_wasi_uncancelled (err e) = refl

module _ {E : Type 0} (host : Host E) where
  admit_uncancelled : (request : CommandRequest) → says_cancelled (admit host request) ≡ false
  unfolding admit
  admit_uncancelled request = ground arith

  mount_uncancelled :
      (cwd : FilePath) (index : ℕ) (fs : List FilesystemGrant) (found : Option Text)
      → says_cancelled (mount_grants host cwd index fs found) ≡ false
  unfolding mount_grants
  mount_uncancelled cwd index [] found = refl
  mount_uncancelled cwd index (f ∷ fs) found = elim (Option-cases (host.canonicalize f.root)) [
    | inl e ↦ rw (e, mount_grants) refl
    | inr (root, e) ↦
        rw (e, mount_grants)
          (bind_uncancelled _ _ (map_wasi_uncancelled _)
            (λ a. bind_uncancelled _ _ (mount_uncancelled cwd (suc index) fs _) (λ b. refl)))
  ]

  build_store_uncancelled :
      (request : CommandRequest) → says_cancelled (build_store host request) ≡ false
  unfolding build_store
  build_store_uncancelled request =
      bind_uncancelled (admit host request) _ (admit_uncancelled request) (λ a.
        bind_uncancelled (mount_grants host request.cwd 0 request.grant.filesystems none) _
          (mount_uncancelled request.cwd 0 request.grant.filesystems none)
          (λ b.
            bind_uncancelled (map_err RuntimeError.wasi (fail_if host.linker_error)) _
              (map_wasi_uncancelled (fail_if host.linker_error))
              (λ c.
                bind_uncancelled
                  (map_err RuntimeError.wasi
                    (fail_if (host.fuel_error request.grant.limits.max_fuel)))
                  _ (map_wasi_uncancelled (fail_if (host.fuel_error request.grant.limits.max_fuel)))
                  (λ d. refl))))

abbrev pub is_trap : {E : Type 0} → RunResult E → Bool
is_trap (trapped error) = true
is_trap _ = false

conclude_cancelled :
    {E : Type 0} (r : RunResult E) (out problems : List ℕ) (flag : Bool)
    → says_cancelled (conclude r out problems flag) ≡ (is_trap r && flag)
unfolding conclude
conclude_cancelled succeeded out problems flag = refl
conclude_cancelled reported_failure out problems flag = refl
conclude_cancelled (trapped error) out problems flag = ground arith

module _ {E : Type 0} (host : Host E) (guest : Store → GuestRun E) (request : CommandRequest) where
  -- The guest ran in the request's store and trapped, and its handle was cancelled when the flag was
  -- read.
  pub record WasCancelled (has_handle : Bool) : Type 0 where
    pub store : Store
    pub built : build_store host request ≡ ok store
    pub instantiated : (guest store).instantiate_error ≡ none
    pub did_trap : is_trap (guest store).result ≡ true
    pub had_handle : has_handle ≡ true
    pub was_cancelled : (guest store).cancelled_at_end ≡ true

  started_WasCancelled :
      (has_handle : Bool) (store : Store)
      → build_store host request ≡ ok store
      → run_wasi_inner host guest request has_handle ≡ err cancelled
      → WasCancelled has_handle
  unfolding run_wasi_inner
  started_WasCancelled has_handle store b h = elim (Option-cases (guest store).instantiate_error) [
    | inr (e, i) ↦ cc (rw (b, run_wasi_inner, i) at h)
    | inl i ↦
        let ended = rw (b, run_wasi_inner, i) at h in
        let flag = has_handle && (guest store).cancelled_at_end in
        let both =
          sym
            (conclude_cancelled (guest store).result (guest store).stdout (guest store).stderr flag)
          ∙ ap says_cancelled ended in
        record {
          store = store;
          built = b;
          instantiated = i;
          did_trap = ground arith;
          had_handle = ground arith;
          was_cancelled = ground arith;
        }
  ]

  build-WasCancelled :
      (has_handle : Bool) (m : Result (RuntimeError E) Store)
      → build_store host request ≡ m
      → run_wasi_inner host guest request has_handle ≡ err cancelled
      → WasCancelled has_handle
  unfolding run_wasi_inner
  build-WasCancelled has_handle (ok store) b h = started_WasCancelled has_handle store b h
  build-WasCancelled has_handle (err e) b h =
      let same = rw (b, run_wasi_inner) at h in
      let reported : says_cancelled {A = Store} (err e) ≡ false =
        subst (λ x. says_cancelled x ≡ false) b (build_store_uncancelled host request) in
      absurd (ground (arith, same, reported))

  -- If a run reports that it was cancelled, then its store was built, its guest started and trapped,
  -- the caller had given a handle, and that handle had been cancelled by then: neither an error of the
  -- setup nor a trap of its own accord is taken for a cancellation.
  pub run_wasi_inner-WasCancelled :
      (has_handle : Bool)
      → run_wasi_inner host guest request has_handle ≡ err cancelled
      → WasCancelled has_handle
  run_wasi_inner-WasCancelled has_handle h =
      build-WasCancelled has_handle (build_store host request) refl h
