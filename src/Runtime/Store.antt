-- ===== src/Runtime/Store.antt =====
-- `RuntimeError`, `WasiOutput` and `build_store` of crates/wasi-runtime/src/lib.rs.
pub mod Allowed
pub mod Granted
pub mod Installed
pub mod Unattended
use ferrous_runtime.Prelude.{
  ◌>>=◌, ◌>>◌, ℕ, suc, ◌*◌, max, List, Option, ltb, if◌then◌else◌, ◌==◌, Result, some, ◌++◌, ◌∷◌,
  ok, none, err, [], ok_or, map_err, reject_if, not, map,
}
use ferrous_runtime.Text.{Text, text, decimal}
use ferrous_runtime.FilePath.{FilePath, root_dir, normal, to_text}
use ferrous_runtime.Capability.Limits.{u64_max, ResourceLimits}
use ferrous_runtime.Command.Request.{
  CommandError, CommandRequest, working_directory_denied, validate, is_native,
}
use ferrous_runtime.Wasi.{
  BuilderCall, Perms, read_only, all_perms, preopened_dir, set_args, initial_cwd, set_stdout,
  set_stderr, env,
}
use ferrous_runtime.Capability.Filesystem.{
  FilesystemAccess, FilesystemGrant, read, read_write, guest_path_for,
}
use ferrous_runtime.Capability.Resolve.{allows_existing_path}
use ferrous_runtime.Policy.{selected_environment, apply, from_grant}

-- The errors of wasmtime are opaque: `E` is their type.
pub data RuntimeError (E : Type 0) : Type 0 where
  engine component wasi : E → RuntimeError E
  command : CommandError → RuntimeError E
  wrong_mode cancelled : RuntimeError E

pub record WasiOutput : Type 0 where
  pub stdout : List ℕ
  pub stderr : List ℕ
  pub exit_code : ℕ  -- i32, 0 or 1

-- `timeout_seconds.saturating_mul(10).max(1)` on u64: the epoch ticks until the deadline.
unfoldable pub epoch_ticks : ResourceLimits → ℕ
epoch_ticks l =
    max (if ltb u64_max (l.timeout_seconds * 10) then u64_max else l.timeout_seconds * 10) 1

-- What lies outside the program: the file system, the environment, and the calls of wasmtime that
-- can fail, each with its error where it does.
pub record Host (E : Type 0) : Type 0 where
  pub canonicalize : FilePath → Option FilePath
  pub env_provider : Text → Option Text
  pub preopen_error : FilePath → Text → Option E
  pub linker_error : Option E
  pub fuel_error : ℕ → Option E

-- The store that `build_store` returns, as what it was given.
pub record Store : Type 0 where
  pub calls : List BuilderCall
  pub memory_size : ℕ
  pub instances : ℕ
  pub tables : ℕ
  pub memories : ℕ
  pub fuel : ℕ
  pub epoch_deadline : ℕ

abbrev pub perms_of : FilesystemAccess → Perms
perms_of read = read_only
perms_of read_write = all_perms

-- The guest's name for the root of the grant at an index.
unfoldable pub guest_root_at : ℕ → Text
guest_root_at index = if index == 0 then text "workspace" else text "grant-" ++ decimal index

abbrev pub guest_root_path : ℕ → FilePath
guest_root_path index = root_dir ∷ normal (guest_root_at index) ∷ []

abbrev pub fail_if {κ} : {F : Type κ} → Option F → Result F (Unit {0})
fail_if none = ok tt
fail_if (some e) = err e

abbrev pub or_else : Option Text → Option Text → Option Text
or_else (some t) other = some t
or_else none other = other

module _ {E : Type 0} (host : Host E) where
  -- The loop over the filesystem grants. It returns the `preopened_dir` calls and `cwd_guest`.
  unfoldable pub mount_grants :
      FilePath
      → ℕ
      → List FilesystemGrant
      → Option Text
      → Result (RuntimeError E) (List BuilderCall × Option Text)
  mount_grants cwd index [] cwd_guest = ok ([], cwd_guest)
  mount_grants cwd index (filesystem ∷ rest) cwd_guest = do
    host_root ←
        ok_or (host.canonicalize filesystem.root)
          (command (working_directory_denied filesystem.root))
    map_err wasi (fail_if (host.preopen_error host_root (to_text (guest_root_path index))))
    (calls, found) ←
        mount_grants cwd (suc index) rest
          (or_else cwd_guest (guest_path_for filesystem cwd (guest_root_path index)))
    ok (
      preopened_dir host_root (to_text (guest_root_path index)) (perms_of filesystem.access)
            (perms_of filesystem.access)
          ∷ calls,
      found,
    )

  -- The checks of a request before any of the context is built.
  unfoldable pub admit : CommandRequest → Result (RuntimeError E) (Unit {0})
  admit request = do
    map_err command (validate request)
    reject_if (is_native request.mode) wrong_mode
    reject_if (not (allows_existing_path host.canonicalize request.grant request.cwd))
        (command (working_directory_denied request.cwd))
    ok tt

  -- The context, the limits, the fuel and the deadline that `build_store` sets, in that order, from
  -- the mounts and the working directory found.
  unfoldable pub store_for : CommandRequest → List BuilderCall × Option Text → Store
  store_for request (mounts, cwd_guest) = record {
    calls =
        (set_args request.args ∷ initial_cwd (text "/workspace") ∷ set_stdout ∷ set_stderr ∷ [])
        ++ map (λ e. env e.0 e.1) (selected_environment request.grant host.env_provider)
        ++ apply (from_grant request.grant)
        ++ mounts
        ++ elim cwd_guest [ none ↦ [] | some cwd ↦ initial_cwd cwd ∷ [] ];
    memory_size = request.grant.limits.max_memory_bytes;
    instances = 16;
    tables = 16;
    memories = 16;
    fuel = request.grant.limits.max_fuel;
    epoch_deadline = epoch_ticks request.grant.limits;
  }

  unfoldable pub build_store : CommandRequest → Result (RuntimeError E) Store
  unfolding admit
  build_store request = do
    admit request
    mounted ← mount_grants request.cwd 0 request.grant.filesystems none
    map_err wasi (fail_if host.linker_error)
    map_err wasi (fail_if (host.fuel_error request.grant.limits.max_fuel))
    ok (store_for request mounted)
