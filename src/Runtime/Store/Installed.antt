-- ===== src/Runtime/Store/Installed.antt =====
-- The calls that `build_store` of crates/wasi-runtime/src/lib.rs makes in any case, and the mounts.
use ferrous_runtime.Prelude.{
  ◌≡◌, List, ◌∷◌, ◌++◌, [], Memᴰ, ℕ, some, inl, true, Option, sym, map, ok, inr, Option-cases,
  false, not, is_empty, ◌||◌, refl, subst, >>=-eq-ok, map_err, suc, Bool, none, All, All-mono,
  mem-append_left, mem-append_right,
}
use ferrous_runtime.Runtime.Store.{
  Host, mount_grants, perms_of, RuntimeError, fail_if, guest_root_path, or_else, store_for,
}
use ferrous_runtime.Capability.Filesystem.{FilesystemGrant, guest_path_for}
use ferrous_runtime.Capability.Grant.{CapabilityGrant}
use ferrous_runtime.Policy.{apply, from_grant, permits, selected_environment}
use ferrous_runtime.FilePath.{FilePath, to_text}
use ferrous_runtime.Wasi.{
  BuilderCall, set_args, initial_cwd, env, allow_ip_name_lookup, allow_udp, allow_tcp,
  socket_addr_check, preopened_dir, set_stdout, set_stderr,
}
use ferrous_runtime.Text.{Text, text}
use ferrous_runtime.Command.Request.{CommandRequest}

-- Whether the grant names any port, for connecting or for binding.
abbrev pub names_ports : CapabilityGrant → Bool
names_ports g = not (is_empty g.loopback_ports) || not (is_empty g.loopback_bind_ports)

-- The network is closed but for the ports of the grant. What is not called stays at the defaults of
-- wasmtime, so that each of these calls has to be there.
pub record ClosesNetwork (g : CapabilityGrant) (calls : List BuilderCall) : Type 0 where
  pub name_lookup_off : Memᴰ (allow_ip_name_lookup false) calls
  pub udp_off : Memᴰ (allow_udp false) calls
  pub tcp_for_ports : Memᴰ (allow_tcp (names_ports g)) calls
  pub sockets_checked :
      names_ports g ≡ true → Memᴰ (socket_addr_check (permits (from_grant g))) calls

apply-ClosesNetwork : (g : CapabilityGrant) → ClosesNetwork g (apply (from_grant g))
unfolding apply from_grant
apply-ClosesNetwork g = record {
  name_lookup_off = Memᴰ.head refl;
  udp_off = Memᴰ.tail (Memᴰ.head refl);
  tcp_for_ports = Memᴰ.tail (Memᴰ.tail (Memᴰ.head refl));
  sockets_checked = λ e. Memᴰ.tail (Memᴰ.tail (Memᴰ.tail (rw e (Memᴰ.head refl))));
}

around-ClosesNetwork :
    (g : CapabilityGrant) (before : List BuilderCall) {calls : List BuilderCall}
    (behind : List BuilderCall)
    → ClosesNetwork g calls
    → ClosesNetwork g (before ++ calls ++ behind)
around-ClosesNetwork g before behind c = record {
  name_lookup_off = mem-append_left (mem-append_right before c.name_lookup_off) behind;
  udp_off = mem-append_left (mem-append_right before c.udp_off) behind;
  tcp_for_ports = mem-append_left (mem-append_right before c.tcp_for_ports) behind;
  sockets_checked = λ e. mem-append_left (mem-append_right before (c.sockets_checked e)) behind;
}

module _ {E : Type 0} (host : Host E) where
  -- The resolved root of a filesystem grant is opened to the guest, with the access of the grant.
  abbrev pub IsOpened : List BuilderCall → FilesystemGrant → Type 0
  IsOpened calls f =
      (root : FilePath) × (guest : Text) × (host.canonicalize f.root ≡ some root)
      × Memᴰ (preopened_dir root guest (perms_of f.access) (perms_of f.access)) calls

  pub mount_grants-IsOpened :
      (cwd : FilePath) (index : ℕ) (fs : List FilesystemGrant) (cwd_guest : Option Text)
      (r : List BuilderCall × Option Text)
      → mount_grants host cwd index fs cwd_guest ≡ ok r
      → All (IsOpened r.0) fs
  unfolding mount_grants
  mount_grants-IsOpened cwd index [] cwd_guest r e = tt
  mount_grants-IsOpened cwd index (g ∷ fs) cwd_guest r e =
      elim (Option-cases (host.canonicalize g.root)) [
        | inl c ↦ cc (rw (c, mount_grants) at e)
        | inr (root, c) ↦
            let (_, _, opened) =
              >>=-eq-ok
                (map_err RuntimeError.wasi
                  (fail_if (host.preopen_error root (to_text (guest_root_path index)))))
                _ (rw (c, mount_grants) at e) in
            let (rest, mounted, last) =
              >>=-eq-ok
                (mount_grants host cwd (suc index) fs
                  (or_else cwd_guest (guest_path_for g cwd (guest_root_path index))))
                _ opened in
            let call =
              preopened_dir root (to_text (guest_root_path index)) (perms_of g.access)
                (perms_of g.access) in
            let k : r ≡ (call ∷ rest.0, rest.1) = cc in
            subst (λ x. All (IsOpened x.0) (g ∷ fs)) (sym k)
              (
                (root, to_text (guest_root_path index), c, Memᴰ.head refl),
                All-mono (IsOpened rest.0) (IsOpened (call ∷ rest.0))
                    (λ f (at, guest, resolves, m). (at, guest, resolves, Memᴰ.tail m)) fs
                    (mount_grants-IsOpened cwd (suc index) fs _ rest mounted),
              )
      ]

  -- Every call that is made in any case, with its arguments.
  pub record Installs (request : CommandRequest) (calls : List BuilderCall) : Type 0 where
    pub args_passed : Memᴰ (set_args request.args) calls
    pub stdout_captured : Memᴰ set_stdout calls
    pub stderr_captured : Memᴰ set_stderr calls
    pub network_closed : ClosesNetwork request.grant calls
    pub roots_opened : All (IsOpened calls) request.grant.filesystems

  pub store_for-Installs :
      (request : CommandRequest) (r : List BuilderCall × Option Text)
      → All (IsOpened r.0) request.grant.filesystems
      → Installs request (store_for host request r).calls
  unfolding store_for
  store_for-Installs request (mounts, found) m =
      let setup =
        set_args request.args ∷ initial_cwd (text "/workspace") ∷ set_stdout ∷ set_stderr ∷ [] in
      let vars = map (λ e. env e.0 e.1) (selected_environment request.grant host.env_provider) in
      let network = apply (from_grant request.grant) in
      let cwd : List BuilderCall = elim found [ none ↦ [] | some c ↦ initial_cwd c ∷ [] ] in
      let closed = apply-ClosesNetwork request.grant in
      record {
        args_passed = Memᴰ.head refl;
        stdout_captured = Memᴰ.tail (Memᴰ.tail (Memᴰ.head refl));
        stderr_captured = Memᴰ.tail (Memᴰ.tail (Memᴰ.tail (Memᴰ.head refl)));
        network_closed =
            around-ClosesNetwork request.grant [] cwd
              (around-ClosesNetwork request.grant (setup ++ vars) mounts closed);
        roots_opened =
            All-mono (IsOpened mounts) (IsOpened (store_for host request (mounts, found)).calls)
              (λ f (at, guest, resolves, n). (
                at,
                guest,
                resolves,
                mem-append_left (mem-append_right (setup ++ vars ++ network) n) cwd,
              ))
              request.grant.filesystems m;
      }
