-- ===== src/Tests/Unit/Capabilities.antt =====
-- The tests in crates/wasi-runtime/src/capability.rs and crates/wasi-runtime/src/command.rs.
use ferrous_runtime.Prelude.{
  ◌≡◌, ◌&&◌, ◌∷◌, ◌>>=◌, ◌==◌, [], Bool, true, false, not, Option, some, Result, ok, err, refl, ℕ,
  if◌then◌else◌,
}
use ferrous_runtime.Text.{text, text_eq, is_whitespace}
use ferrous_runtime.FilePath.{FilePath, root_dir, normal, is_absolute, starts_with, component_eq}
use ferrous_runtime.FilePath.Parse.{from_text}
use ferrous_runtime.SortedSet.{port_order, text_order, insert, contains}
use ferrous_runtime.Capability.Filesystem
use ferrous_runtime.Capability.Filesystem.{FilesystemGrant, read, is_safe_absolute_path, allows}
use ferrous_runtime.Capability.Limits
use ferrous_runtime.Capability.Limits.{
  CapabilityError, ResourceLimits, invalid_path, invalid_environment_name, invalid_loopback_port,
  with_fuel, with_memory_bytes, with_unlimited_fuel, u64_max,
}
use ferrous_runtime.Capability.Grant
use ferrous_runtime.Capability.Grant.{
  CapabilityGrant, allow_environment, allow_loopback_port, allow_loopback_bind_port,
  allows_loopback_port, allows_loopback_bind_port, allow_native_execution, allows_path, workspace,
}
use ferrous_runtime.Capability.Resolve.{
  allows_existing_path, canonicalize_with_existing_parent, resolves_below, push_names,
}
use ferrous_runtime.Command.Request
use ferrous_runtime.Command.Request.{human, native, validate, contains_nul}

abbrev passes : Result CapabilityError Bool → Bool
passes (ok b) = b
passes (err _) = false

abbrev fails {ℓ} : {A : Type ℓ} → Result CapabilityError A → Bool
fails (ok _) = false
fails (err _) = true

abbrev is_invalid_path {ℓ} : {A : Type ℓ} → Result CapabilityError A → Bool
is_invalid_path (err (invalid_path _)) = true
is_invalid_path _ = false

abbrev is_invalid_name {ℓ} : {A : Type ℓ} → Result CapabilityError A → Bool
is_invalid_name (err (invalid_environment_name _)) = true
is_invalid_name _ = false

abbrev is_invalid_port {ℓ} : {A : Type ℓ} → ℕ → Result CapabilityError A → Bool
is_invalid_port port (err (invalid_loopback_port p)) = p == port
is_invalid_port port _ = false

abbrev rejects_relative_and_parent_paths : Bool
rejects_relative_and_parent_paths =
    is_invalid_path (Filesystem.new (from_text (text "workspace")) read)
    && is_invalid_path (Filesystem.new (from_text (text "/workspace/../secrets")) read)

abbrev rejects_zero_fuel_and_zero_memory_limits : Bool
rejects_zero_fuel_and_zero_memory_limits = passes do
  limits ← Limits.new 1024 30
  ok (
      fails (with_fuel limits 0)
      && fails (with_memory_bytes limits 0)
      && limits.max_fuel == 1_000_000)

abbrev unlimited_fuel_uses_the_sentinel : Bool
unlimited_fuel_uses_the_sentinel = passes do
  limits ← Limits.new 1024 30
  let unlimited = with_unlimited_fuel limits
  ok (unlimited.max_fuel == u64_max)

abbrev rejects_malformed_environment_names : Bool
rejects_malformed_environment_names =
    is_invalid_name (allow_environment Grant.empty (text "TOKEN=value"))

abbrev rejects_port_zero_on_connect_and_bind : Bool
rejects_port_zero_on_connect_and_bind =
    is_invalid_port 0 (allow_loopback_port Grant.empty 0)
    && is_invalid_port 0 (allow_loopback_bind_port Grant.empty 0)

abbrev bind_allowlist_is_separate_and_empty_by_default : Bool
bind_allowlist_is_separate_and_empty_by_default = passes do
  connecting ← allow_loopback_port Grant.empty 3000
  grant ← allow_loopback_bind_port connecting 3001
  ok (
      allows_loopback_port connecting 3000
      && not (allows_loopback_bind_port connecting 3000)
      && allows_loopback_bind_port grant 3001
      && not (allows_loopback_port grant 3001)
      && not (allows_loopback_bind_port grant 3000))

limits_pass :
    (rejects_relative_and_parent_paths && rejects_zero_fuel_and_zero_memory_limits
      && unlimited_fuel_uses_the_sentinel && rejects_malformed_environment_names
      && rejects_port_zero_on_connect_and_bind && bind_allowlist_is_separate_and_empty_by_default)
    ≡ true
unfolding Filesystem.new is_safe_absolute_path is_absolute from_text text_eq Limits.new with_fuel
    with_memory_bytes with_unlimited_fuel allow_environment Grant.is_malformed_name
    allow_loopback_port allow_loopback_bind_port allows_loopback_port allows_loopback_bind_port
    contains insert is_whitespace
limits_pass = refl

abbrev link_root : FilePath
link_root = from_text (text "/tmp/root")

-- The file system of the test: a link below the root leads outside.
abbrev linked : FilePath → Option FilePath
linked (root_dir ∷ normal tmp ∷ normal root ∷ normal link ∷ rest) =
    if text_eq link (text "link")
    then some (root_dir ∷ normal tmp ∷ normal (text "outside") ∷ rest)
    else some (root_dir ∷ normal tmp ∷ normal root ∷ normal link ∷ rest)
linked p = some p

abbrev existing_path_check_rejects_a_symlink_that_leaves_the_grant : Bool
existing_path_check_rejects_a_symlink_that_leaves_the_grant = passes do
  grant ← workspace link_root read
  let escaped = from_text (text "/tmp/root/link/secret.txt")
  ok (allows_path grant escaped && not (allows_existing_path linked grant escaped))

links_pass : existing_path_check_rejects_a_symlink_that_leaves_the_grant ≡ true
unfolding workspace Filesystem.new is_safe_absolute_path is_absolute from_text text_eq allows_path
    allows starts_with component_eq allows_existing_path canonicalize_with_existing_parent
    resolves_below push_names
links_pass = refl

abbrev native_request_with_workspace_and_grant_is_valid : Bool
native_request_with_workspace_and_grant_is_valid = passes do
  let root = from_text (text "/tmp/ferrous-test-workspace")
  rooted ← workspace root read
  ok
      (elim (Request.new 1 human native (text "cargo") (text "test" ∷ []) root
        (allow_native_execution rooted)) [ ok _ ↦ true | err _ ↦ false ])

requests_pass : native_request_with_workspace_and_grant_is_valid ≡ true
unfolding workspace Filesystem.new is_safe_absolute_path is_absolute from_text text_eq allows_path
    allows starts_with component_eq allow_native_execution Request.new validate contains_nul
    Grant.allows_native_execution
requests_pass = refl
