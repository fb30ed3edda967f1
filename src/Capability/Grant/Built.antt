-- ===== src/Capability/Grant/Built.antt =====
-- The grants that the builder methods of crates/wasi-runtime/src/capability.rs can make. The fields
-- are private there, so these are all the grants.
use ferrous_runtime.FilePath.{FilePath}
use ferrous_runtime.SortedSet.{insert, port_order, text_order, insert-IsIncreasing}
use ferrous_runtime.Prelude.{List, ℕ, ◌≡◌, ◌<◌, length, arith, ok, ◌∷◌, ◌≤◌, [], true, false}
use ferrous_runtime.Capability.Limits
use ferrous_runtime.Capability.Grant
use ferrous_runtime.Capability.Filesystem
use ferrous_runtime.Capability.Limits.{ResourceLimits}
use ferrous_runtime.Capability.Grant.{CapabilityGrant, is_malformed_name}
use ferrous_runtime.Capability.Filesystem.{FilesystemGrant, FilesystemAccess, is_safe_absolute_path}
use ferrous_runtime.Text.{Text}
use ferrous_runtime.SortedSet.{IsIncreasing}

-- Limits that the constructors of `ResourceLimits` make.
pub data BuiltLimits : ResourceLimits → Type 0 where
  new : (output timeout : ℕ) {l : ResourceLimits} → Limits.new output timeout ≡ ok l → BuiltLimits l
  with_fuel :
      {l m : ResourceLimits} (fuel : ℕ)
      → BuiltLimits l
      → Limits.with_fuel l fuel ≡ ok m
      → BuiltLimits m
  with_unlimited_fuel :
      {l m : ResourceLimits} → BuiltLimits l → Limits.with_unlimited_fuel l ≡ m → BuiltLimits m
  with_memory_bytes :
      {l m : ResourceLimits} (bytes : ℕ)
      → BuiltLimits l
      → Limits.with_memory_bytes l bytes ≡ ok m
      → BuiltLimits m

-- Grants that the public methods make.
pub data Built : CapabilityGrant → Type 0 where
  empty : {g : CapabilityGrant} → g ≡ Grant.empty → Built g
  workspace :
      (root : FilePath) (access : FilesystemAccess) {g : CapabilityGrant}
      → Grant.workspace root access ≡ ok g
      → Built g
  environment :
      {g h : CapabilityGrant} (name : Text)
      → Built g
      → Grant.allow_environment g name ≡ ok h
      → Built h
  connect :
      {g h : CapabilityGrant} (port : ℕ)
      → Built g
      → Grant.allow_loopback_port g port ≡ ok h
      → Built h
  bind :
      {g h : CapabilityGrant} (port : ℕ)
      → Built g
      → Grant.allow_loopback_bind_port g port ≡ ok h
      → Built h
  native : {g h : CapabilityGrant} → Built g → Grant.allow_native_execution g ≡ h → Built h
  limited :
      {g h : CapabilityGrant} (l : ResourceLimits)
      → Built g
      → BuiltLimits l
      → Grant.with_limits g l ≡ h
      → Built h

-- Each limit bounds something.
pub record ArePositive (l : ResourceLimits) : Type 0 where
  pub output : 0 < l.max_output_bytes
  pub timeout : 0 < l.timeout_seconds
  pub memory : 0 < l.max_memory_bytes
  pub fuel : 0 < l.max_fuel

abbrev pub AllSafe : List FilesystemGrant → Type 0
AllSafe [] = Unit {0}
AllSafe (f ∷ fs) = (is_safe_absolute_path f.root ≡ true) × AllSafe fs

abbrev pub AllNamed : List Text → Type 0
AllNamed [] = Unit {0}
AllNamed (t ∷ ts) = (is_malformed_name t ≡ false) × AllNamed ts

abbrev pub AllPositive : List ℕ → Type 0
AllPositive [] = Unit {0}
AllPositive (p ∷ ps) = (0 < p) × AllPositive ps

pub record IsWellFormed (g : CapabilityGrant) : Type 0 where
  pub safe_roots : AllSafe g.filesystems
  pub one_root : length g.filesystems ≤ 1
  pub well_named : AllNamed g.environment
  pub sorted_names : IsIncreasing g.environment
  pub connect_positive : AllPositive g.loopback_ports
  pub connect_sorted : IsIncreasing g.loopback_ports
  pub bind_positive : AllPositive g.loopback_bind_ports
  pub bind_sorted : IsIncreasing g.loopback_bind_ports
  pub positive_limits : ArePositive g.limits

pub BuiltLimits-ArePositive : {l : ResourceLimits} → BuiltLimits l → ArePositive l
unfolding Limits.new Limits.with_fuel Limits.with_unlimited_fuel Limits.with_memory_bytes
BuiltLimits-ArePositive (new output timeout e) = ground arith
BuiltLimits-ArePositive (with_fuel fuel b e) = ground (arith, BuiltLimits-ArePositive b)
BuiltLimits-ArePositive (with_unlimited_fuel b e) = ground (arith, BuiltLimits-ArePositive b)
BuiltLimits-ArePositive (with_memory_bytes bytes b e) = ground (arith, BuiltLimits-ArePositive b)

insert-AllNamed :
    (t : Text) (ts : List Text) → is_malformed_name t ≡ false → AllNamed ts → AllNamed (insert t ts)
unfolding insert
insert-AllNamed t [] h a = (h, tt)
insert-AllNamed t (x ∷ ts) h a = ground (arith, insert-AllNamed t ts h a.1)

insert-AllPositive : (p : ℕ) (ps : List ℕ) → 0 < p → AllPositive ps → AllPositive (insert p ps)
unfolding insert
insert-AllPositive p [] h a = (h, tt)
insert-AllPositive p (x ∷ ps) h a = ground (arith, insert-AllPositive p ps h a.1)

environment-IsWellFormed :
    {g h : CapabilityGrant} (name : Text)
    → IsWellFormed g
    → Grant.allow_environment g name ≡ ok h
    → IsWellFormed h
unfolding Grant.allow_environment
environment-IsWellFormed {g} name v e = ground (
  arith,
  insert-AllNamed name g.environment,
  insert-IsIncreasing name g.environment v.sorted_names,
)

connect-IsWellFormed :
    {g h : CapabilityGrant} (port : ℕ)
    → IsWellFormed g
    → Grant.allow_loopback_port g port ≡ ok h
    → IsWellFormed h
unfolding Grant.allow_loopback_port
connect-IsWellFormed {g} port v e = ground (
  arith,
  insert-AllPositive port g.loopback_ports,
  insert-IsIncreasing port g.loopback_ports v.connect_sorted,
)

bind-IsWellFormed :
    {g h : CapabilityGrant} (port : ℕ)
    → IsWellFormed g
    → Grant.allow_loopback_bind_port g port ≡ ok h
    → IsWellFormed h
unfolding Grant.allow_loopback_bind_port
bind-IsWellFormed {g} port v e = ground (
  arith,
  insert-AllPositive port g.loopback_bind_ports,
  insert-IsIncreasing port g.loopback_bind_ports v.bind_sorted,
)

workspace-IsWellFormed :
    (root : FilePath) (access : FilesystemAccess) {g : CapabilityGrant}
    → Grant.workspace root access ≡ ok g
    → IsWellFormed g
unfolding Grant.workspace Filesystem.new
workspace-IsWellFormed root access e = ground arith

-- Every grant that can be built has at most one root, absolute and free of `..`; only well-formed
-- variable names and non-zero ports, each set sorted and without duplicates; and positive limits.
pub Built-IsWellFormed : {g : CapabilityGrant} → Built g → IsWellFormed g
unfolding Grant.allow_native_execution Grant.with_limits
Built-IsWellFormed (empty e) = ground arith
Built-IsWellFormed (workspace root access e) = workspace-IsWellFormed root access e
Built-IsWellFormed (environment name b e) = environment-IsWellFormed name (Built-IsWellFormed b) e
Built-IsWellFormed (connect port b e) = connect-IsWellFormed port (Built-IsWellFormed b) e
Built-IsWellFormed (bind port b e) = bind-IsWellFormed port (Built-IsWellFormed b) e
Built-IsWellFormed (native b e) = ground (arith, Built-IsWellFormed b)
Built-IsWellFormed (limited l b p e) =
    ground (arith, Built-IsWellFormed b, BuiltLimits-ArePositive p)
