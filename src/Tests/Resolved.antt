-- ===== src/Tests/Resolved.antt =====
-- Path resolution and the guest's context at concrete inputs.
use ferrous_runtime.Prelude.{
  ◌↔◌, ◌≡◌, ◌∷◌, Option, List, [], some, ◌++◌, ℕ, none, false, arith, ok, refl, true, err,
}
use ferrous_runtime.Command.Request.{validate, contains_nul}
use ferrous_runtime.FilePath.{
  append_path, root_dir, relative_text, name_text, normal, FilePath, file_name, pop, init, join,
  is_absolute, starts_with, component_eq, to_text, strip_prefix,
}
use ferrous_runtime.Capability.Resolve.{
  canonicalize_with_existing_parent, allows_existing_path, resolve_from, push_names, resolves_below,
}
use ferrous_runtime.Capability.Resolve.Nearest.{
  IsNearest, canonicalize_with_existing_parent-IsNearest, resolve_from_total,
}
use ferrous_runtime.Capability.Resolve.Contained.{IsContained, allows_existing_path-IsContained}
use ferrous_runtime.Runtime.Store.{
  Store, build_store, WasiOutput, store_for, admit, mount_grants, guest_root_at, RuntimeError,
}
use ferrous_runtime.Runtime.Store.Granted.{Confines, build_store-Confines}
use ferrous_runtime.Policy.{classify_risk, Risk}
use ferrous_runtime.Runtime.Execute.{run_wasi_inner, GuestRun, conclude, reported_failure, trapped}
use ferrous_runtime.Runtime.Execute.Outcome.{IsRun, run_wasi_inner-IsRun}
use ferrous_runtime.Tests.Fixtures.{work, reading_grant, plain_host, request_with}
use ferrous_runtime.Wasi.{BuilderCall, preopened_dir, read_only}
use ferrous_runtime.Capability.Grant.{allows_native_execution, allows_path}
use ferrous_runtime.Runtime.Store.Unattended.{IsReader, auto_approve-IsReader}
use ferrous_runtime.Text.{Text, text, text_eq, decimal, to_str}
use ferrous_runtime.Capability.Filesystem.{allows, is_safe_absolute_path, guest_path_for}
use ferrous_runtime.Runtime.Execute.Cancelled.{WasCancelled, run_wasi_inner-WasCancelled}

-- Nothing below the workspace exists yet.
abbrev only_work : FilePath → Option FilePath
only_work (root_dir ∷ normal t ∷ []) = some (root_dir ∷ normal t ∷ [])
only_work _ = none

abbrev new_file : FilePath
new_file = work ++ normal (text "a") ∷ normal (text "b") ∷ []

new_file-resolves : canonicalize_with_existing_parent only_work new_file ≡ some new_file
unfolding canonicalize_with_existing_parent resolve_from push_names file_name pop init join
    is_absolute append_path
new_file-resolves = refl

canonicalize_with_existing_parent-IsNearest_example : IsNearest only_work new_file [] new_file
canonicalize_with_existing_parent-IsNearest_example =
    canonicalize_with_existing_parent-IsNearest only_work new_file new_file-resolves

resolve_from_total_example : (r : Option FilePath) × (resolve_from only_work 5 new_file [] ≡ some r)
resolve_from_total_example = resolve_from_total only_work 5 new_file [] (omega arith)

new_file-allowed : allows_existing_path only_work reading_grant new_file ≡ true
unfolding allows_existing_path canonicalize_with_existing_parent resolve_from push_names file_name
    pop init join is_absolute append_path resolves_below starts_with component_eq text_eq
    allows_path allows is_safe_absolute_path
new_file-allowed = refl

allows_existing_path-IsContained_example : IsContained only_work reading_grant new_file
allows_existing_path-IsContained_example =
    allows_existing_path-IsContained only_work reading_grant new_file new_file-allowed

abbrev plain_mounts : List BuilderCall × Option Text
plain_mounts =
    (preopened_dir work (text "/workspace") read_only read_only ∷ [], some (text "/workspace"))

abbrev pub plain_store : Store
plain_store = store_for plain_host (request_with 1 reading_grant) plain_mounts

pub plain-built : build_store plain_host (request_with 1 reading_grant) ≡ ok plain_store
unfolding build_store admit mount_grants allows_existing_path canonicalize_with_existing_parent
    resolve_from push_names file_name pop init join is_absolute append_path resolves_below
    starts_with component_eq text_eq allows_path allows is_safe_absolute_path validate contains_nul
    allows_native_execution guest_path_for guest_root_at decimal to_text relative_text name_text
    strip_prefix to_str
plain-built = refl

build_store-Confines_example : Confines plain_host (request_with 1 reading_grant) plain_store
build_store-Confines_example =
    build_store-Confines plain_host (request_with 1 reading_grant) plain-built

reading-auto : classify_risk (request_with 1 reading_grant) ≡ Risk.auto_approve
unfolding classify_risk allows_native_execution
reading-auto = refl

auto_approve-IsReader_example : IsReader plain_host plain_store.calls
auto_approve-IsReader_example =
    auto_approve-IsReader plain_host (request_with 1 reading_grant) reading-auto plain-built

abbrev failing_guest : Store → GuestRun ℕ
failing_guest store = record {
  instantiate_error = none;
  result = reported_failure;
  stdout = 7 ∷ [];
  stderr = [];
  cancelled_at_end = false;
}

abbrev failed_output : WasiOutput
failed_output = record { stdout = 7 ∷ []; stderr = []; exit_code = 1 }

failing-run :
    run_wasi_inner plain_host failing_guest (request_with 1 reading_grant) false ≡ ok failed_output
unfolding run_wasi_inner conclude
failing-run = rw plain-built refl

run_wasi_inner-IsRun_example :
    (run_wasi_inner plain_host failing_guest (request_with 1 reading_grant) false
      ≡ ok failed_output)
    ↔ IsRun plain_host failing_guest (request_with 1 reading_grant) failed_output
run_wasi_inner-IsRun_example =
    run_wasi_inner-IsRun plain_host failing_guest (request_with 1 reading_grant) false failed_output

abbrev stopped_guest : Store → GuestRun ℕ
stopped_guest store = record {
  instantiate_error = none;
  result = trapped 3;
  stdout = [];
  stderr = [];
  cancelled_at_end = true;
}

stopped-run :
    run_wasi_inner plain_host stopped_guest (request_with 1 reading_grant) true
    ≡ err RuntimeError.cancelled
unfolding run_wasi_inner conclude
stopped-run = rw plain-built refl

run_wasi_inner-WasCancelled_example :
    WasCancelled plain_host stopped_guest (request_with 1 reading_grant) true
run_wasi_inner-WasCancelled_example =
    run_wasi_inner-WasCancelled plain_host stopped_guest (request_with 1 reading_grant) true
      stopped-run
