-- ===== src/Policy/Exact.antt =====
-- What crates/wasi-runtime/src/policy.rs opens to the guest, against what the grant was asked for.
use ferrous_runtime.Prelude.{
  ◌≡◌, ℕ, List, Option, none, if◌then◌else◌, Bool, [], arith, any, ◌&&◌, ◌∷◌, ok, Option-cases,
  false, some, inl, inr,
}
use ferrous_runtime.Capability.Grant
use ferrous_runtime.Wasi.{SocketAddrUse, SocketAddr, is_loopback, tcp_connect, tcp_bind, other_use}
use ferrous_runtime.Policy.{permits, select_names, selected_environment, from_grant}
use ferrous_runtime.SortedSet.{contains, text_order, port_order}
use ferrous_runtime.Text.{Text, text_eq, eq_of_text_eq}
use ferrous_runtime.Capability.Grant.{CapabilityGrant}
use ferrous_runtime.Capability.Grant.Authority.{
  Extension, extend_all, asks_connect, asks_bind, extend_all-Adds, text_eq-lt,
}

-- Whether some call asked for a use of a port.
abbrev pub asked : SocketAddrUse → ℕ → List Extension → Bool
asked tcp_connect port extensions = any (asks_connect port) extensions
asked tcp_bind port extensions = any (asks_bind port) extensions
asked other_use port extensions = false

permits-grant :
    (g : CapabilityGrant) (addr : SocketAddr) (u : SocketAddrUse)
    → permits (from_grant g) addr u ≡ (
        is_loopback addr.ip && elim u [
          | tcp_connect ↦ Grant.allows_loopback_port g addr.port
          | tcp_bind ↦ Grant.allows_loopback_bind_port g addr.port
          | other_use ↦ false
        ])
unfolding permits from_grant Grant.allows_loopback_port Grant.allows_loopback_bind_port contains
permits-grant g addr tcp_connect = ground arith
permits-grant g addr tcp_bind = ground arith
permits-grant g addr other_use = ground arith

-- Let a grant be extended from one without ports. The policy made of it permits a use of a socket
-- address exactly when the address is a loopback address and some call asked for that use of that
-- port: a port for connecting is not one for binding, and no other use is ever permitted.
pub permits-extended :
    (extensions : List Extension) (g : CapabilityGrant) {h : CapabilityGrant}
    → g.loopback_ports ≡ []
    → g.loopback_bind_ports ≡ []
    → extend_all extensions g ≡ ok h
    → (addr : SocketAddr) (u : SocketAddrUse)
    → permits (from_grant h) addr u ≡ (is_loopback addr.ip && asked u addr.port extensions)
unfolding Grant.allows_loopback_port Grant.allows_loopback_bind_port contains
permits-extended extensions g {h} p q e addr tcp_connect =
    let adds = extend_all-Adds extensions g e in
    ground (arith, permits-grant h addr tcp_connect, adds.connect addr.port)
permits-extended extensions g {h} p q e addr tcp_bind =
    let adds = extend_all-Adds extensions g e in
    ground (arith, permits-grant h addr tcp_bind, adds.bind addr.port)
permits-extended extensions g {h} p q e addr other_use =
    ground (arith, permits-grant h addr other_use)

-- What the guest reads as the value of a variable.
unfoldable pub get_env : Text → List (Text × Text) → Option Text
get_env name [] = none
get_env name ((n, value) ∷ vars) = if text_eq name n then some value else get_env name vars

get_env-select_names :
    (provider : Text → Option Text) (name : Text) (names : List Text)
    → get_env name (select_names provider names)
      ≡ (if contains name names then provider name else none)
unfolding get_env select_names contains
get_env-select_names provider name [] = ground arith
get_env-select_names provider name (n ∷ names) = elim (Option-cases (provider n)) [
  | inl e ↦
      rw (e, select_names)
        (ground (
          arith,
          get_env-select_names provider name names,
          text_eq-lt name n,
          eq_of_text_eq name n,
        ))
  | inr (value, e) ↦
      rw (e, select_names, get_env)
        (ground (
          arith,
          get_env-select_names provider name names,
          text_eq-lt name n,
          eq_of_text_eq name n,
        ))
]

-- The guest reads a variable exactly when the grant allows its name and the host has it, and then with
-- the host's value; under every other name it finds nothing, whatever the host has.
pub get_env-selected_environment :
    (g : CapabilityGrant) (provider : Text → Option Text) (name : Text)
    → get_env name (selected_environment g provider)
      ≡ (if Grant.allows_environment g name then provider name else none)
unfolding selected_environment Grant.allows_environment
get_env-selected_environment g provider name = get_env-select_names provider name g.environment
