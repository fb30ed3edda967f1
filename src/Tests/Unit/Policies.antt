-- ===== src/Tests/Unit/Policies.antt =====
-- The tests in crates/wasi-runtime/src/policy.rs.
use ferrous_runtime.Prelude.{
  ◌≡◌, ◌&&◌, ◌∷◌, ◌>>=◌, [], Bool, true, false, not, ℕ, List, Option, none, some, Result, ok, err,
  is_empty, refl, if◌then◌else◌,
}
use ferrous_runtime.Text.{Text, text, text_eq, text_lt, is_whitespace}
use ferrous_runtime.FilePath.{is_absolute}
use ferrous_runtime.Capability.Filesystem
use ferrous_runtime.Wasi.{SocketAddr, v4, is_loopback, tcp_connect, tcp_bind, other_use}
use ferrous_runtime.SortedSet.{port_order, text_order, insert, contains}
use ferrous_runtime.Capability.Filesystem.{read, read_write, is_safe_absolute_path}
use ferrous_runtime.Capability.Limits.{CapabilityError}
use ferrous_runtime.Capability.Grant
use ferrous_runtime.Capability.Grant.{
  CapabilityGrant, allow_loopback_port, allow_loopback_bind_port, allow_environment, workspace,
  allow_native_execution,
}
use ferrous_runtime.Command.Request.{
  ApprovalReason, CommandRequest, filesystem_write, network_access, environment_access,
  native_execution,
}
use ferrous_runtime.Policy.{Risk, from_grant, permits, selected_environment, classify_risk}
use ferrous_runtime.Tests.Fixtures.{request_with, work}

-- A step that `expect` wraps fails the test.
abbrev passes : Result CapabilityError Bool → Bool
passes (ok b) = b
passes (err _) = false

abbrev local : ℕ → SocketAddr
local port = record { ip = v4 127 0 0 1; port = port }

abbrev grant_with_ports : List ℕ → CapabilityGrant → Result CapabilityError CapabilityGrant
grant_with_ports [] grant = ok grant
grant_with_ports (port ∷ ports) grant =
    allow_loopback_port grant port >>= λ extended. grant_with_ports ports extended

abbrev grant_with_bind_ports : List ℕ → CapabilityGrant → Result CapabilityError CapabilityGrant
grant_with_bind_ports [] grant = ok grant
grant_with_bind_ports (port ∷ ports) grant =
    allow_loopback_bind_port grant port >>= λ extended. grant_with_bind_ports ports extended

abbrev empty_grant_denies_all_networking : Bool
empty_grant_denies_all_networking =
    let policy = from_grant Grant.empty in
    not policy.tcp
    && not policy.udp
    && is_empty policy.allowed_connect_ports
    && is_empty policy.allowed_bind_ports

abbrev connect_allowlist_does_not_permit_binding : Bool
connect_allowlist_does_not_permit_binding = passes do
  grant ← grant_with_ports (3000 ∷ []) Grant.empty
  let policy = from_grant grant
  ok (
      policy.tcp
      && permits policy (local 3000) tcp_connect
      && not (permits policy (local 3000) tcp_bind)
      && not (permits policy (local 3000) other_use)
      && not (permits policy (local 3001) tcp_connect)
      && not (permits policy (record { ip = v4 10 0 0 1; port = 3000 }) tcp_connect)
      && not (permits policy (record { ip = v4 0 0 0 0; port = 3000 }) tcp_bind))

abbrev bind_allowlist_permits_binding_but_not_connecting : Bool
bind_allowlist_permits_binding_but_not_connecting = passes do
  grant ← grant_with_bind_ports (4000 ∷ []) Grant.empty
  let policy = from_grant grant
  ok (
      permits policy (local 4000) tcp_bind
      && not (permits policy (local 4000) tcp_connect)
      && not (permits policy (local 4001) tcp_bind))

abbrev multiple_allowed_ports_are_all_permitted : Bool
multiple_allowed_ports_are_all_permitted = passes do
  grant ← grant_with_ports (3000 ∷ 5173 ∷ []) Grant.empty
  let policy = from_grant grant
  ok (permits policy (local 3000) tcp_connect && permits policy (local 5173) tcp_connect)

abbrev connect_and_bind_ports_can_coexist : Bool
connect_and_bind_ports_can_coexist = passes do
  connecting ← allow_loopback_port Grant.empty 3000
  grant ← allow_loopback_bind_port connecting 4000
  let policy = from_grant grant
  ok (
      permits policy (local 3000) tcp_connect
      && permits policy (local 4000) tcp_bind
      && not (permits policy (local 3000) tcp_bind)
      && not (permits policy (local 4000) tcp_connect))

abbrev provider : Text → Option Text
provider name =
    if text_eq name (text "ALLOWED")
    then some (text "value-1")
    else if text_eq name (text "PATH")
    then some (text "/usr/bin")
    else if text_eq name (text "SECRET")
    then some (text "leak")
    else none

abbrev same_pairs : List (Text × Text) → List (Text × Text) → Bool
same_pairs [] [] = true
same_pairs ((n, v) ∷ xs) ((m, w) ∷ ys) = text_eq n m && text_eq v w && same_pairs xs ys
same_pairs _ _ = false

abbrev environment_selection_filters_by_allowlist : Bool
environment_selection_filters_by_allowlist = passes do
  first ← allow_environment Grant.empty (text "ALLOWED")
  grant ← allow_environment first (text "PATH")
  ok (
      same_pairs (selected_environment grant provider)
        ((text "ALLOWED", text "value-1") ∷ (text "PATH", text "/usr/bin") ∷ []))

abbrev environment_selection_drops_missing_values : Bool
environment_selection_drops_missing_values = passes do
  grant ← allow_environment Grant.empty (text "MISSING")
  ok (is_empty (selected_environment grant (λ name. none)))

networks_pass :
    (empty_grant_denies_all_networking && connect_allowlist_does_not_permit_binding
      && bind_allowlist_permits_binding_but_not_connecting
      && multiple_allowed_ports_are_all_permitted && connect_and_bind_ports_can_coexist
      && environment_selection_filters_by_allowlist && environment_selection_drops_missing_values)
    ≡ true
unfolding from_grant allow_loopback_port insert permits is_loopback contains
    allow_loopback_bind_port allow_environment Grant.is_malformed_name is_whitespace
    selected_environment text_lt text_eq
networks_pass = refl

abbrev same_reason : Risk → ApprovalReason → Bool
same_reason (Risk.requires_approval filesystem_write) filesystem_write = true
same_reason (Risk.requires_approval network_access) network_access = true
same_reason (Risk.requires_approval environment_access) environment_access = true
same_reason (Risk.requires_approval native_execution) native_execution = true
same_reason _ _ = false

-- The workspace stands for the system's directory for temporary files.
abbrev classified_request : CapabilityGrant → CommandRequest
classified_request grant = request_with 1 grant

abbrev read_only_command_is_auto_approved : Bool
read_only_command_is_auto_approved = passes do
  grant ← workspace work read
  ok (elim (classify_risk (classified_request grant)) [ Risk.auto_approve ↦ true | _ ↦ false ])

abbrev filesystem_write_requires_approval : Bool
filesystem_write_requires_approval = passes do
  grant ← workspace work read_write
  ok (same_reason (classify_risk (classified_request grant)) filesystem_write)

abbrev network_access_requires_approval : Bool
network_access_requires_approval = passes do
  rooted ← workspace work read
  grant ← allow_loopback_port rooted 3000
  ok (same_reason (classify_risk (classified_request grant)) network_access)

abbrev bind_permission_also_requires_approval : Bool
bind_permission_also_requires_approval = passes do
  rooted ← workspace work read
  grant ← allow_loopback_bind_port rooted 4000
  ok (same_reason (classify_risk (classified_request grant)) network_access)

abbrev environment_access_requires_approval : Bool
environment_access_requires_approval = passes do
  rooted ← workspace work read
  grant ← allow_environment rooted (text "PATH")
  ok (same_reason (classify_risk (classified_request grant)) environment_access)

abbrev native_execution_is_the_highest_risk : Bool
native_execution_is_the_highest_risk = passes do
  rooted ← workspace work read_write
  ok (
      same_reason (classify_risk (classified_request (allow_native_execution rooted)))
        native_execution)

risks_pass :
    (read_only_command_is_auto_approved && filesystem_write_requires_approval
      && network_access_requires_approval && bind_permission_also_requires_approval
      && environment_access_requires_approval && native_execution_is_the_highest_risk)
    ≡ true
unfolding workspace Filesystem.new is_safe_absolute_path is_absolute classify_risk
    Grant.allows_native_execution allow_loopback_port insert allow_loopback_bind_port
    allow_environment Grant.is_malformed_name is_whitespace allow_native_execution
risks_pass = refl
