-- ===== src/Wasi.antt =====
-- Socket addresses, and the calls that the program makes on `wasmtime_wasi::WasiCtxBuilder`, which
-- is a third-party type: a context is described by the sequence of calls that built it.
use ferrous_runtime.Prelude.{ℕ, Bool, ◌&&◌, List, ◌==◌}
use ferrous_runtime.Text.{Text}
use ferrous_runtime.FilePath.{FilePath}

-- `std::net::IpAddr` and `SocketAddr`: the four bytes of an IPv4 address, or the eight 16-bit
-- groups of an IPv6 address, and a port.
pub data IpAddr : Type 0 where
  v4 : ℕ → ℕ → ℕ → ℕ → IpAddr
  v6 : ℕ → ℕ → ℕ → ℕ → ℕ → ℕ → ℕ → ℕ → IpAddr

pub record SocketAddr : Type 0 where
  pub ip : IpAddr
  pub port : ℕ  -- u16

-- `IpAddr::is_loopback`: 127.0.0.0/8, or ::1.
unfoldable pub is_loopback : IpAddr → Bool
is_loopback (v4 a b c d) = a == 127
is_loopback (v6 a b c d e f g h) =
    a == 0 && b == 0 && c == 0 && d == 0 && e == 0 && f == 0 && g == 0 && h == 1

-- `wasmtime_wasi::sockets::SocketAddrUse`: the kinds that the code names, and the rest.
pub data SocketAddrUse : Type 0 where
  tcp_connect tcp_bind other_use : SocketAddrUse

-- `DirPerms` and `FilePerms`, of which the program uses `READ` and `all()`.
pub data Perms : Type 0 where
  read_only all_perms : Perms

pub data BuilderCall : Type 0 where
  set_args : List Text → BuilderCall
  initial_cwd : Text → BuilderCall
  set_stdout set_stderr : BuilderCall
  env : Text → Text → BuilderCall
  allow_ip_name_lookup allow_udp allow_tcp : Bool → BuilderCall
  socket_addr_check : (SocketAddr → SocketAddrUse → Bool) → BuilderCall
  preopened_dir : FilePath → Text → Perms → Perms → BuilderCall
