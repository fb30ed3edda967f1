-- ===== src/Runtime/Execute/Outcome.antt =====
-- How a run of crates/wasi-runtime/src/lib.rs can end.
use ferrous_runtime.Prelude.{
  ◌≡◌, ◌↔◌, Option, map_err, Bool, ok, none, >>=-eq-ok, arith, some, ◌⊎◌, inl, ◌&&◌, refl, inr,
}
use ferrous_runtime.Runtime.Store.{
  wasi, Host, Store, RuntimeError, WasiOutput, fail_if, build_store,
}
use ferrous_runtime.Runtime.Execute.{
  conclude, run_wasi_inner, GuestRun, RunResult, succeeded, reported_failure, trapped,
}
use ferrous_runtime.Command.Request.{CommandRequest}
use ferrous_runtime.Runtime.Store.Granted.{Confines, build_store-Confines}

module _ {E : Type 0} (host : Host E) where
  -- A run that returned output was a run of the guest in a confined store.
  pub record IsRun (guest : Store → GuestRun E) (request : CommandRequest) (out : WasiOutput)
      : Type 0 where
    pub store : Store
    pub built : build_store host request ≡ ok store
    pub confined : Confines host request store
    pub instantiated : (guest store).instantiate_error ≡ none
    pub stdout_kept : out.stdout ≡ (guest store).stdout
    pub stderr_kept : out.stderr ≡ (guest store).stderr
    pub code :
        ((out.exit_code ≡ 0) × ((guest store).result ≡ succeeded))
        ⊎ ((out.exit_code ≡ 1) × ((guest store).result ≡ reported_failure))

  conclude-IsRun :
      (guest : Store → GuestRun E) (request : CommandRequest) (flag : Bool) (out : WasiOutput)
      (store : Store) (result : RunResult E)
      → build_store host request ≡ ok store
      → (guest store).instantiate_error ≡ none
      → (guest store).result ≡ result
      → conclude result (guest store).stdout (guest store).stderr flag ≡ ok out
      → IsRun guest request out
  unfolding conclude
  conclude-IsRun guest request flag out store succeeded c i k e = record {
    store = store;
    built = c;
    confined = build_store-Confines host request c;
    instantiated = i;
    stdout_kept = ground arith;
    stderr_kept = ground arith;
    code = inl (ground arith, k);
  }
  conclude-IsRun guest request flag out store reported_failure c i k e = record {
    store = store;
    built = c;
    confined = build_store-Confines host request c;
    instantiated = i;
    stdout_kept = ground arith;
    stderr_kept = ground arith;
    code = inr (ground arith, k);
  }
  conclude-IsRun guest request flag out store (trapped error) c i k e = absurd (ground arith)

  fail_if-ok :
      (o : Option E) → map_err {Wrapped = RuntimeError E} wasi (fail_if o) ≡ ok tt → o ≡ none
  fail_if-ok none e = refl
  fail_if-ok (some x) e = cc

  output-IsRun :
      (guest : Store → GuestRun E) (request : CommandRequest) (has_handle : Bool) {out : WasiOutput}
      → run_wasi_inner host guest request has_handle ≡ ok out
      → IsRun guest request out
  unfolding run_wasi_inner
  output-IsRun guest request has_handle {out} e =
      let (store, built, running) = >>=-eq-ok (build_store host request) _ e in
      let (_, instantiated, last) =
        >>=-eq-ok (map_err RuntimeError.wasi (fail_if (guest store).instantiate_error)) _ running in
      conclude-IsRun guest request (has_handle && (guest store).cancelled_at_end) out store
        (guest store).result built (fail_if-ok (guest store).instantiate_error instantiated) refl
        last

  concluded :
      (guest : Store → GuestRun E) (request : CommandRequest) (flag : Bool) (out : WasiOutput)
      → (v : IsRun guest request out)
      → conclude (guest v.store).result (guest v.store).stdout (guest v.store).stderr flag ≡ ok out
  unfolding conclude
  concluded guest request flag out v = elim v.code [
    | inl (c, k) ↦ rw (k, conclude) (ground (arith, c, v.stdout_kept, v.stderr_kept))
    | inr (c, k) ↦ rw (k, conclude) (ground (arith, c, v.stdout_kept, v.stderr_kept))
  ]

  run-output :
      (guest : Store → GuestRun E) (request : CommandRequest) (has_handle : Bool) (out : WasiOutput)
      → IsRun guest request out
      → run_wasi_inner host guest request has_handle ≡ ok out
  unfolding run_wasi_inner
  run-output guest request has_handle out v =
      rw (v.built, v.instantiated)
        (concluded guest request (has_handle && (guest v.store).cancelled_at_end) out v)

  -- A run returns an output exactly when its store can be built, the guest can be instantiated in it and
  -- ends by itself, the output is what the guest wrote, and the exit code is 0 if the guest succeeded
  -- and 1 if it reported a failure. The store then confines the guest to its request. Whether there
  -- is a cancel handle, and whether it was cancelled, makes no difference; no trap is returned as
  -- output, and no output of a guest that ended by itself is lost.
  pub run_wasi_inner-IsRun :
      (guest : Store → GuestRun E) (request : CommandRequest) (has_handle : Bool) (out : WasiOutput)
      → (run_wasi_inner host guest request has_handle ≡ ok out) ↔ IsRun guest request out
  run_wasi_inner-IsRun guest request has_handle out =
      (output-IsRun guest request has_handle, run-output guest request has_handle out)
