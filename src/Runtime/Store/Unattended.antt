-- ===== src/Runtime/Store/Unattended.antt =====
-- What a guest can do that runs without a human's approval, over crates/wasi-runtime/src/policy.rs
-- and `build_store` of crates/wasi-runtime/src/lib.rs.
use ferrous_runtime.Prelude.{
  ◌≡◌, Memᴰ, List, false, arith, [], ◌∙◌, all-mem, ok, refl, not, subst, sym, All, All-mono,
}
use ferrous_runtime.Capability.Grant
use ferrous_runtime.SortedSet.{text_order, port_order, contains}
use ferrous_runtime.Wasi.{
  BuilderCall, set_args, initial_cwd, env, SocketAddr, Perms, allow_ip_name_lookup, SocketAddrUse,
  read_only, allow_udp, allow_tcp, tcp_connect, socket_addr_check, tcp_bind, preopened_dir,
  other_use, set_stdout, set_stderr,
}
use ferrous_runtime.Policy.{permits, from_grant, is_write, classify_risk, Risk}
use ferrous_runtime.Capability.Filesystem.{FilesystemAccess, read, read_write}
use ferrous_runtime.Runtime.Store.{Host, Store, perms_of, build_store}
use ferrous_runtime.Command.Request.{CommandRequest}
use ferrous_runtime.Capability.Grant.{CapabilityGrant}
use ferrous_runtime.FilePath.{FilePath}
use ferrous_runtime.Policy.Risky.{IsHarmless, classify_risk-IsHarmless}
use ferrous_runtime.Runtime.Store.Installed.{names_ports}
use ferrous_runtime.Runtime.Store.Allowed.{IsGranted, IsMount}
use ferrous_runtime.Runtime.Store.Granted.{build_store-Confines}

-- A call that lets the guest neither write, nor use the network, nor see the host's environment.
abbrev pub OnlyReads : BuilderCall → Type 0
OnlyReads (set_args args) = Unit {0}
OnlyReads (initial_cwd cwd) = Unit {0}
OnlyReads set_stdout = Unit {0}
OnlyReads set_stderr = Unit {0}
OnlyReads (env name value) = ⊥
OnlyReads (allow_ip_name_lookup b) = b ≡ false
OnlyReads (allow_udp b) = b ≡ false
OnlyReads (allow_tcp b) = b ≡ false
OnlyReads (socket_addr_check check) = (addr : SocketAddr) (u : SocketAddrUse) → check addr u ≡ false
OnlyReads (preopened_dir root guest dirs files) = (dirs ≡ read_only) × (files ≡ read_only)

no_permits :
    (g : CapabilityGrant) (addr : SocketAddr) (u : SocketAddrUse)
    → g.loopback_ports ≡ []
    → g.loopback_bind_ports ≡ []
    → permits (from_grant g) addr u ≡ false
unfolding permits from_grant
no_permits g addr tcp_connect p q = ground arith
no_permits g addr tcp_bind p q = ground arith
no_permits g addr other_use p q = ground arith

read_perms : (a : FilesystemAccess) → is_write a ≡ false → perms_of a ≡ read_only
read_perms read e = refl
read_perms read_write e = cc

module _ {E : Type 0} (host : Host E) where
  mount-read_only :
      (r : CommandRequest) (root : FilePath) (perms : Perms)
      → IsHarmless r
      → IsMount host r.grant.filesystems root perms
      → perms ≡ read_only
  mount-read_only r root perms h (f, member, resolves, e) =
      e
      ∙ read_perms f.access
          (ground (arith, all-mem (λ x. not (is_write x.access)) h.reads_only member))

  granted-OnlyReads :
      (r : CommandRequest) → IsHarmless r → (c : BuilderCall) → IsGranted host r c → OnlyReads c
  unfolding Grant.allows_environment contains
  granted-OnlyReads r h (set_args args) g = tt
  granted-OnlyReads r h (initial_cwd cwd) g = tt
  granted-OnlyReads r h set_stdout g = tt
  granted-OnlyReads r h set_stderr g = tt
  granted-OnlyReads r h (env name value) g = absurd (ground (arith, h.no_environment))
  granted-OnlyReads r h (allow_ip_name_lookup b) g = g
  granted-OnlyReads r h (allow_udp b) g = g
  granted-OnlyReads r h (allow_tcp b) g = ground (arith, h.no_connect, h.no_bind)
  granted-OnlyReads r h (socket_addr_check check) g = λ addr u.
      subst (λ c. c addr u ≡ false) (sym g) (no_permits r.grant addr u h.no_connect h.no_bind)
  granted-OnlyReads r h (preopened_dir root guest dirs files) (d, f) =
      (mount-read_only r root dirs h d, mount-read_only r root files h f)

  -- The guest can only read: no call gives more, and name lookup, UDP and TCP are turned off.
  abbrev pub IsReader : List BuilderCall → Type 0
  IsReader calls =
      All OnlyReads calls
      × Memᴰ (allow_ip_name_lookup false) calls
      × Memᴰ (allow_udp false) calls
      × Memᴰ (allow_tcp false) calls

  no_names_ports : (r : CommandRequest) → IsHarmless r → names_ports r.grant ≡ false
  no_names_ports r h = ground (arith, h.no_connect, h.no_bind)

  -- If the policy lets a request run without a human's approval and its store is built, then the guest
  -- can only read: every directory is opened read-only, no variable of the host is passed, name
  -- lookup, UDP and TCP are turned off, and no socket check permits anything.
  pub auto_approve-IsReader :
      (request : CommandRequest) {store : Store}
      → classify_risk request ≡ Risk.auto_approve
      → build_store host request ≡ ok store
      → IsReader store.calls
  auto_approve-IsReader request {store} a e =
      let harmless = (classify_risk-IsHarmless request).0 a in
      let confined = build_store-Confines host request e in
      let closed = confined.calls_made.network_closed in
      (
        All-mono (IsGranted host request) OnlyReads (granted-OnlyReads request harmless) store.calls
            confined.calls_granted,
        closed.name_lookup_off,
        closed.udp_off,
        subst (λ b. Memᴰ (allow_tcp b) store.calls) (no_names_ports request harmless)
            closed.tcp_for_ports,
      )
