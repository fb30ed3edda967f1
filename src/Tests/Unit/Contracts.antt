-- ===== src/Tests/Unit/Contracts.antt =====
-- The tests in crates/wasi-runtime/src/lib.rs that need no engine, and the two that are refused before
-- the guest starts. Where a test looks for words in the text of an error, the error itself is tested.
use ferrous_runtime.Prelude.{
  ◌≡◌, ◌&&◌, ◌∷◌, ◌++◌, ◌>>=◌, [], Bool, true, false, not, none, some, Option, ℕ, Result, ok, err,
  refl, if◌then◌else◌,
}
use ferrous_runtime.Text.{Text, text, text_eq}
use ferrous_runtime.FilePath.{
  FilePath, root_dir, normal, is_absolute, starts_with, component_eq, join, file_name, pop,
}
use ferrous_runtime.FilePath.Parse.{from_text}
use ferrous_runtime.SortedSet.{contains}
use ferrous_runtime.Capability.Filesystem
use ferrous_runtime.Capability.Filesystem.{read_write, is_safe_absolute_path, allows}
use ferrous_runtime.Capability.Limits
use ferrous_runtime.Capability.Resolve.{
  allows_existing_path, canonicalize_with_existing_parent, resolve_from, resolves_below, push_names,
}
use ferrous_runtime.Capability.Grant
use ferrous_runtime.Capability.Grant.{
  workspace, allows_path, allows_environment, allows_loopback_port, allow_native_execution,
  allows_native_execution,
}
use ferrous_runtime.Command.Request
use ferrous_runtime.Command.Request.{
  CommandError, agent, native, wasi, validate, contains_nul, native_not_granted, output_limit,
}
use ferrous_runtime.Command.Session
use ferrous_runtime.Command.Session.{SessionEvent, stdout, stderr}
use ferrous_runtime.Native
use ferrous_runtime.Native.{unsupported_on_host}
use ferrous_runtime.Runtime.Store.{Host, Store, RuntimeError, WasiOutput, build_store, admit}
use ferrous_runtime.Runtime.Execute.{GuestRun, RunResult, run_wasi, run_wasi_inner}
use ferrous_runtime.Tests.Unit.Scripts.{expect, passes}

abbrev test_root : Text → FilePath
test_root name = from_text (text "/tmp/ferrous-" ++ name)

abbrev succeeds {ℓ} : {E A : Type ℓ} → Result E A → Bool
succeeds (ok _) = true
succeeds (err _) = false

abbrev empty_grant_denies_filesystem_environment_and_network : Bool
empty_grant_denies_filesystem_environment_and_network =
    not (allows_path Grant.empty (from_text (text "/workspace/main.rs")))
    && not (allows_environment Grant.empty (text "PATH"))
    && not (allows_loopback_port Grant.empty 3000)

abbrev workspace_grant_does_not_cross_path_boundaries_or_parent_segments : Bool
workspace_grant_does_not_cross_path_boundaries_or_parent_segments = passes do
  let project = test_root (text "project")
  grant ← expect (workspace project read_write)
  ok (
      allows_path grant (join project (from_text (text "src/main.rs")))
      && not
          (allows_path grant (join (test_root (text "project-other")) (from_text (text "main.rs"))))
      && not (allows_path grant (join project (from_text (text "../secrets.txt")))))

abbrev native_execution_requires_an_explicit_grant : Bool
native_execution_requires_an_explicit_grant =
    elim (Request.new 7 agent native (text "cargo") (text "test" ∷ [])
      (from_text (text "/workspace/project")) Grant.empty) [
        | err native_not_granted ↦ true
        | _ ↦ false
      ]

abbrev output_budget_rejects_chunks_that_would_exceed_the_limit : Bool
output_budget_rejects_chunks_that_would_exceed_the_limit = passes do
  limits ← expect (Limits.new 4 30)
  let (started, first) = Session.accept (Session.new 7 limits) SessionEvent.started
  let (written, second) = Session.accept started (SessionEvent.output stdout (text "abc"))
  let (exceeded, third) = Session.accept written (SessionEvent.output stderr (text "de"))
  ok (succeeds first && succeeds second && elim third [ err output_limit ↦ true | _ ↦ false ])

abbrev native_backend_never_falls_back_to_ambient_execution : Bool
native_backend_never_falls_back_to_ambient_execution = passes do
  let root = test_root (text "native-workspace")
  rooted ← expect (workspace root read_write)
  request ← expect (
      Request.new 8 agent native (text "bash") (text "-lc" ∷ text "echo unsafe" ∷ []) root
        (allow_native_execution rooted))
  ok (elim (Native.start request) [ err unsupported_on_host ↦ true | _ ↦ false ])

abbrev terminal_cannot_emit_output_before_start_or_after_exit : Bool
terminal_cannot_emit_output_before_start_or_after_exit = passes do
  limits ← expect (Limits.new 1024 30)
  let (created, early) =
      Session.accept (Session.new 7 limits) (SessionEvent.output stdout (text "early"))
  let (started, first) = Session.accept created SessionEvent.started
  let (ended, second) = Session.accept started (SessionEvent.exited (some 0))
  ok (
      not (succeeds early)
      && succeeds first
      && succeeds second
      && not (succeeds (Session.accept ended SessionEvent.started).1))

-- A host that the file system of a test alone can fail.
abbrev host_with : (FilePath → Option FilePath) → Host ℕ
host_with canonicalize = record {
  canonicalize = canonicalize;
  env_provider = λ name. none;
  preopen_error = λ root guest. none;
  linker_error = none;
  fuel_error = λ fuel. none;
}

-- The component of these tests is empty: it has no command to run.
abbrev empty_component : Store → GuestRun ℕ
empty_component store = record {
  instantiate_error = some 0;
  result = RunResult.succeeded;
  stdout = [];
  stderr = [];
  cancelled_at_end = false;
}

abbrev is_command_error : Result (RuntimeError ℕ) WasiOutput → Bool
is_command_error (err (RuntimeError.command _)) = true
is_command_error _ = false

-- The directory for temporary files exists, and nothing below it.
abbrev without_workspace : FilePath → Option FilePath
without_workspace [] = none
without_workspace (root_dir ∷ []) = some (root_dir ∷ [])
without_workspace (root_dir ∷ tmp ∷ []) = some (root_dir ∷ tmp ∷ [])
without_workspace _ = none

abbrev runtime_denies_a_missing_workspace_before_guest_start : Bool
runtime_denies_a_missing_workspace_before_guest_start = passes do
  let missing = test_root (text "missing-workspace-that-does-not-exist")
  grant ← expect (workspace missing read_write)
  request ← expect (Request.new 9 agent wasi (text "tool") [] missing grant)
  ok (is_command_error (run_wasi (host_with without_workspace) empty_component request))

-- Everything exists, and `escape` leads from the root of the grant to the directory outside.
abbrev with_escape : FilePath → Option FilePath
with_escape (root_dir ∷ tmp ∷ normal root ∷ normal link ∷ rest) =
    if text_eq root (text "ferrous-symlink-escape") && text_eq link (text "escape")
    then some (root_dir ∷ tmp ∷ normal (text "ferrous-symlink-escape-outside") ∷ rest)
    else some (root_dir ∷ tmp ∷ normal root ∷ normal link ∷ rest)
with_escape path = some path

abbrev runtime_denies_a_symlinked_cwd_that_escapes_the_grant : Bool
runtime_denies_a_symlinked_cwd_that_escapes_the_grant = passes do
  let root = test_root (text "symlink-escape")
  grant ← expect (workspace root read_write)
  let escaped_cwd = join root (from_text (text "escape"))
  request ← expect (Request.new 10 agent wasi (text "tool") [] escaped_cwd grant)
  ok (is_command_error (run_wasi (host_with with_escape) empty_component request))

contracts_pass :
    (empty_grant_denies_filesystem_environment_and_network
      && workspace_grant_does_not_cross_path_boundaries_or_parent_segments
      && native_execution_requires_an_explicit_grant
      && output_budget_rejects_chunks_that_would_exceed_the_limit
      && native_backend_never_falls_back_to_ambient_execution
      && terminal_cannot_emit_output_before_start_or_after_exit)
    ≡ true
unfolding allows_path allows_environment allows_loopback_port contains workspace Filesystem.new
    is_safe_absolute_path is_absolute from_text text_eq allows starts_with component_eq join
    Request.new validate contains_nul allow_native_execution allows_native_execution Limits.new
    Session.new Session.accept Native.start
contracts_pass = refl

refused_before_start_passes :
    (runtime_denies_a_missing_workspace_before_guest_start
      && runtime_denies_a_symlinked_cwd_that_escapes_the_grant)
    ≡ true
unfolding run_wasi run_wasi_inner build_store admit allows_existing_path
    canonicalize_with_existing_parent resolve_from resolves_below push_names file_name pop
    allows_path workspace Filesystem.new is_safe_absolute_path is_absolute from_text text_eq allows
    starts_with component_eq join Request.new validate contains_nul allows_native_execution
refused_before_start_passes = refl
