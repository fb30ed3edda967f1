-- ===== src/Policy.antt =====
-- crates/wasi-runtime/src/policy.rs: what a guest may reach, and what a human must approve.
pub mod Exact
pub mod Risky
use ferrous_runtime.Prelude.{
  ℕ, Bool, true, false, not, ◌&&◌, ◌||◌, List, [], ◌∷◌, Option, none, some, any, is_empty,
  if◌then◌else◌,
}
use ferrous_runtime.Text.{Text}
use ferrous_runtime.Wasi.{
  SocketAddr, is_loopback, SocketAddrUse, tcp_connect, tcp_bind, other_use, BuilderCall,
  allow_ip_name_lookup, allow_udp, allow_tcp, socket_addr_check,
}
use ferrous_runtime.SortedSet.{contains, port_order}
use ferrous_runtime.Capability.Filesystem.{FilesystemAccess, read, read_write}
use ferrous_runtime.Capability.Grant.{CapabilityGrant, allows_native_execution}
use ferrous_runtime.Command.Request.{
  CommandRequest, is_native, ApprovalReason, filesystem_write, network_access, environment_access,
  native_execution,
}

pub record NetworkPolicy : Type 0 where
  pub tcp : Bool
  pub allowed_connect_ports : List ℕ
  pub allowed_bind_ports : List ℕ
  pub udp : Bool

unfoldable pub from_grant : CapabilityGrant → NetworkPolicy
from_grant grant = record {
  tcp = not (is_empty grant.loopback_ports) || not (is_empty grant.loopback_bind_ports);
  allowed_connect_ports = grant.loopback_ports;
  allowed_bind_ports = grant.loopback_bind_ports;
  udp = false;
}

unfoldable pub permits : NetworkPolicy → SocketAddr → SocketAddrUse → Bool
permits p addr tcp_connect =
    p.tcp && is_loopback addr.ip && contains addr.port p.allowed_connect_ports
permits p addr tcp_bind = p.tcp && is_loopback addr.ip && contains addr.port p.allowed_bind_ports
permits p addr other_use = false

-- The calls that `NetworkPolicy::apply` makes on the builder.
unfoldable pub apply : NetworkPolicy → List BuilderCall
apply p =
    allow_ip_name_lookup false
    ∷ allow_udp p.udp
    ∷ allow_tcp p.tcp
    ∷ (if p.tcp then socket_addr_check (permits p) ∷ [] else [])

-- The loop of `selected_environment` over the allowlisted names.
unfoldable pub select_names : (Text → Option Text) → List Text → List (Text × Text)
select_names provider [] = []
select_names provider (name ∷ names) = elim (provider name) [
  | none ↦ select_names provider names
  | some value ↦ (name, value) ∷ select_names provider names
]

unfoldable pub selected_environment : CapabilityGrant → (Text → Option Text) → List (Text × Text)
unfolding select_names
selected_environment grant provider = select_names provider grant.environment

pub data Risk : Type 0 where
  auto_approve : Risk
  requires_approval : ApprovalReason → Risk

abbrev pub is_write : FilesystemAccess → Bool
is_write read_write = true
is_write read = false

unfoldable pub classify_risk : CommandRequest → Risk
classify_risk r =
    if is_native r.mode || allows_native_execution r.grant
    then requires_approval native_execution
    else if any (λ f. is_write f.access) r.grant.filesystems
    then requires_approval filesystem_write
    else if not (is_empty r.grant.loopback_ports) || not (is_empty r.grant.loopback_bind_ports)
    then requires_approval network_access
    else if not (is_empty r.grant.environment)
    then requires_approval environment_access
    else auto_approve
