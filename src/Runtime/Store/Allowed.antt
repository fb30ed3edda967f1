-- ===== src/Runtime/Store/Allowed.antt =====
-- Which calls on the context `build_store` of crates/wasi-runtime/src/lib.rs may make for a request.
use ferrous_runtime.Prelude.{
  ◌≡◌, ◌⊎◌, List, ◌∷◌, [], Memᴰ, ℕ, some, inl, true, Option, sym, map, ok, inr, Option-cases, false,
  refl, subst, >>=-eq-ok, map_err, suc, Bool, if◌then◌else◌, none, All,
}
use ferrous_runtime.Capability.Grant
use ferrous_runtime.SortedSet.{text_order}
use ferrous_runtime.Runtime.Store.Installed.{names_ports}
use ferrous_runtime.Runtime.Store.{
  Host, mount_grants, perms_of, RuntimeError, fail_if, guest_root_path, or_else,
}
use ferrous_runtime.Capability.Filesystem.{FilesystemGrant, guest_path_for}
use ferrous_runtime.Capability.Grant.{CapabilityGrant}
use ferrous_runtime.Policy.{apply, select_names, from_grant, permits}
use ferrous_runtime.FilePath.{FilePath, to_text}
use ferrous_runtime.Wasi.{
  BuilderCall, Perms, set_args, initial_cwd, env, allow_ip_name_lookup, allow_udp, allow_tcp,
  socket_addr_check, preopened_dir, set_stdout, set_stderr,
}
use ferrous_runtime.Text.{Text, text}
use ferrous_runtime.Command.Request.{CommandRequest}

module _ {E : Type 0} (host : Host E) where
  -- The directory is the resolved root of one of the filesystem grants, opened with its access.
  abbrev pub IsMount : List FilesystemGrant → FilePath → Perms → Type 0
  IsMount filesystems root perms =
      (f : FilesystemGrant) × Memᴰ f filesystems
      × (host.canonicalize f.root ≡ some root)
      × (perms ≡ perms_of f.access)

  -- The working directory is the guest's name for the directory that the request names, below one of
  -- the grants.
  abbrev IsGuestCwd : CommandRequest → Text → Type 0
  IsGuestCwd r cwd =
      (f : FilesystemGrant) × (index : ℕ) × Memᴰ f r.grant.filesystems
      × (guest_path_for f r.cwd (guest_root_path index) ≡ some cwd)

  -- A call gives the guest no more than the request and its grant say.
  abbrev pub IsGranted : CommandRequest → BuilderCall → Type 0
  IsGranted r (set_args args) = args ≡ r.args
  IsGranted r (initial_cwd cwd) = (cwd ≡ text "/workspace") ⊎ IsGuestCwd r cwd
  IsGranted r set_stdout = Unit {0}
  IsGranted r set_stderr = Unit {0}
  IsGranted r (env name value) =
      (Grant.allows_environment r.grant name ≡ true) × (host.env_provider name ≡ some value)
  IsGranted r (allow_ip_name_lookup b) = b ≡ false
  IsGranted r (allow_udp b) = b ≡ false
  IsGranted r (allow_tcp b) = b ≡ names_ports r.grant
  IsGranted r (socket_addr_check check) = check ≡ permits (from_grant r.grant)
  IsGranted r (preopened_dir root guest dirs files) =
      IsMount r.grant.filesystems root dirs × IsMount r.grant.filesystems root files

  check-IsGranted :
      (r : CommandRequest) (b : Bool)
      → All (IsGranted r) (if b then socket_addr_check (permits (from_grant r.grant)) ∷ [] else [])
  check-IsGranted r true = (refl, tt)
  check-IsGranted r false = tt

  pub apply-IsGranted : (r : CommandRequest) → All (IsGranted r) (apply (from_grant r.grant))
  unfolding apply from_grant
  apply-IsGranted r = (refl, (refl, (refl, check-IsGranted r (from_grant r.grant).tcp)))

  pub select_names-IsGranted :
      (r : CommandRequest) (names : List Text)
      → ((name : Text) → Memᴰ name names → Grant.allows_environment r.grant name ≡ true)
      → All (IsGranted r) (map (λ e. env e.0 e.1) (select_names host.env_provider names))
  unfolding select_names
  select_names-IsGranted r [] h = tt
  select_names-IsGranted r (n ∷ names) h = elim (Option-cases (host.env_provider n)) [
    | inl e ↦ rw (e, select_names) (select_names-IsGranted r names (λ name m. h name (Memᴰ.tail m)))
    | inr (value, e) ↦
        rw (e, select_names)
          (
            (h n (Memᴰ.head refl), e),
            select_names-IsGranted r names (λ name m. h name (Memᴰ.tail m)),
          )
  ]

  -- The working directory found so far, if any.
  abbrev pub IsFound : CommandRequest → Option Text → Type 0
  IsFound request none = Unit {0}
  IsFound request (some cwd) = IsGuestCwd request cwd

  guest_path_for-IsFound :
      (request : CommandRequest) (f : FilesystemGrant) (index : ℕ)
      → Memᴰ f request.grant.filesystems
      → IsFound request (guest_path_for f request.cwd (guest_root_path index))
  guest_path_for-IsFound request f index m =
      elim (Option-cases (guest_path_for f request.cwd (guest_root_path index))) [
        | inl e ↦ subst (IsFound request) (sym e) tt
        | inr (cwd, e) ↦ subst (IsFound request) (sym e) (f, index, m, e)
      ]

  or_else-IsFound :
      (request : CommandRequest) (a b : Option Text)
      → IsFound request a
      → IsFound request b
      → IsFound request (or_else a b)
  or_else-IsFound request (some t) b h k = h
  or_else-IsFound request none b h k = k

  -- The mounts are granted, and the working directory found is one below a grant.
  abbrev pub MountsWell : CommandRequest → List BuilderCall × Option Text → Type 0
  MountsWell request r = All (IsGranted request) r.0 × IsFound request r.1

  pub mount_grants-MountsWell :
      (request : CommandRequest) (index : ℕ) (fs : List FilesystemGrant) (cwd_guest : Option Text)
      (r : List BuilderCall × Option Text)
      → ((f : FilesystemGrant) → Memᴰ f fs → Memᴰ f request.grant.filesystems)
      → IsFound request cwd_guest
      → mount_grants host request.cwd index fs cwd_guest ≡ ok r
      → MountsWell request r
  unfolding mount_grants
  mount_grants-MountsWell request index [] cwd_guest r sub h e =
      let k : r ≡ ([], cwd_guest) = cc in subst (MountsWell request) (sym k) (tt, h)
  mount_grants-MountsWell request index (f ∷ fs) cwd_guest r sub h e =
      elim (Option-cases (host.canonicalize f.root)) [
        | inl c ↦ cc (rw (c, mount_grants) at e)
        | inr (root, c) ↦
            let (_, _, opened) =
              >>=-eq-ok
                (map_err RuntimeError.wasi
                  (fail_if (host.preopen_error root (to_text (guest_root_path index)))))
                _ (rw (c, mount_grants) at e) in
            let (rest, mounted, last) =
              >>=-eq-ok
                (mount_grants host request.cwd (suc index) fs
                  (or_else cwd_guest (guest_path_for f request.cwd (guest_root_path index))))
                _ opened in
            let is_mount : IsMount request.grant.filesystems root (perms_of f.access) =
              (f, sub f (Memᴰ.head refl), c, refl) in
            let k : r ≡ (
              preopened_dir root (to_text (guest_root_path index)) (perms_of f.access)
                    (perms_of f.access)
                  ∷ rest.0,
              rest.1,
            ) =
              cc in
            let found = guest_path_for-IsFound request f index (sub f (Memᴰ.head refl)) in
            let (others, last_found) =
              mount_grants-MountsWell request (suc index) fs _ rest (λ x m. sub x (Memᴰ.tail m))
                (or_else-IsFound request cwd_guest _ h found) mounted in
            subst (MountsWell request) (sym k) (((is_mount, is_mount), others), last_found)
      ]
