-- ===== src/Capability/Grant.antt =====
-- `CapabilityGrant` of crates/wasi-runtime/src/capability.rs. A builder method consumes the grant
-- and returns the new one.
pub mod Built
pub mod Authority
use ferrous_runtime.Prelude.{
  ℕ, Bool, true, false, ◌||◌, List, [], ◌∷◌, ◌++◌, Result, ok, err, ◌>>=◌, any, is_empty, ◌==◌,
  if◌then◌else◌,
}
use ferrous_runtime.Text.{Text, is_whitespace}
use ferrous_runtime.SortedSet.{insert, contains, port_order, text_order}
use ferrous_runtime.FilePath.{FilePath}
use ferrous_runtime.Capability.Limits.{
  CapabilityError, invalid_environment_name, invalid_loopback_port, ResourceLimits, default_limits,
}
use ferrous_runtime.Capability.Filesystem
use ferrous_runtime.Capability.Filesystem.{FilesystemAccess, FilesystemGrant, allows}

pub record CapabilityGrant : Type 0 where
  pub filesystems : List FilesystemGrant
  pub environment : List Text  -- BTreeSet<String>
  pub loopback_ports : List ℕ  -- BTreeSet<u16>
  pub loopback_bind_ports : List ℕ  -- BTreeSet<u16>
  pub native_execution : Bool
  pub limits : ResourceLimits

abbrev pub empty : CapabilityGrant
empty = record {
  filesystems = [];
  environment = [];
  loopback_ports = [];
  loopback_bind_ports = [];
  native_execution = false;
  limits = default_limits;
}

unfoldable pub workspace : FilePath → FilesystemAccess → Result CapabilityError CapabilityGrant
workspace root access = do
  filesystem ← Filesystem.new root access
  ok (record empty { filesystems = empty.filesystems ++ filesystem ∷ [] })

-- The test on a name that `allow_environment` refuses by.
unfoldable pub is_malformed_name : Text → Bool
is_malformed_name name =
    is_empty name || any (λ c. c == b'=') name || any (λ c. c == 0 || is_whitespace c) name

unfoldable pub allow_environment : CapabilityGrant → Text → Result CapabilityError CapabilityGrant
allow_environment grant name =
    if is_malformed_name name
    then err (invalid_environment_name name)
    else ok (record grant { environment = insert name grant.environment })

unfoldable pub allow_loopback_port : CapabilityGrant → ℕ → Result CapabilityError CapabilityGrant
allow_loopback_port grant port =
    if port == 0
    then err (invalid_loopback_port port)
    else ok (record grant { loopback_ports = insert port grant.loopback_ports })

unfoldable pub allow_loopback_bind_port :
    CapabilityGrant → ℕ → Result CapabilityError CapabilityGrant
allow_loopback_bind_port grant port =
    if port == 0
    then err (invalid_loopback_port port)
    else ok (record grant { loopback_bind_ports = insert port grant.loopback_bind_ports })

unfoldable pub allow_native_execution : CapabilityGrant → CapabilityGrant
allow_native_execution grant = record grant { native_execution = true }

unfoldable pub with_limits : CapabilityGrant → ResourceLimits → CapabilityGrant
with_limits grant limits = record grant { limits = limits }

unfoldable pub allows_path : CapabilityGrant → FilePath → Bool
allows_path grant path = any (λ f. allows f path) grant.filesystems

unfoldable pub allows_environment : CapabilityGrant → Text → Bool
allows_environment grant name = contains name grant.environment

unfoldable pub allows_loopback_port : CapabilityGrant → ℕ → Bool
allows_loopback_port grant port = contains port grant.loopback_ports

unfoldable pub allows_loopback_bind_port : CapabilityGrant → ℕ → Bool
allows_loopback_bind_port grant port = contains port grant.loopback_bind_ports

unfoldable pub allows_native_execution : CapabilityGrant → Bool
allows_native_execution grant = grant.native_execution
