-- ===== src/Runtime/Store/Granted.antt =====
-- What `build_store` of crates/wasi-runtime/src/lib.rs hands to the guest.
use ferrous_runtime.Runtime.Store.Allowed.{
  IsGranted, apply-IsGranted, select_names-IsGranted, IsFound, MountsWell, mount_grants-MountsWell,
}
use ferrous_runtime.Prelude.{
  ◌≡◌, List, ◌∷◌, ◌++◌, [], some, inl, true, Option, sym, map, ok, inr, false, refl, subst,
  >>=-eq-ok, map_err, none, ◌≤◌, arith, All, All-append,
}
use ferrous_runtime.Capability.Grant
use ferrous_runtime.SortedSet.{text_order, contains-mem}
use ferrous_runtime.Runtime.Store.Installed.{
  IsOpened, Installs, store_for-Installs, mount_grants-IsOpened,
}
use ferrous_runtime.Runtime.Store.{
  Host, mount_grants, RuntimeError, fail_if, epoch_ticks, admit, build_store, Store, store_for,
}
use ferrous_runtime.Capability.Grant.{CapabilityGrant}
use ferrous_runtime.Policy.{apply, from_grant, selected_environment}
use ferrous_runtime.Wasi.{BuilderCall, set_args, initial_cwd, env, set_stdout, set_stderr}
use ferrous_runtime.Text.{Text, text}
use ferrous_runtime.Command.Request.{CommandRequest, validate, is_native}
use ferrous_runtime.Capability.Limits.{ResourceLimits, u64_max}
use ferrous_runtime.Capability.Resolve.{allows_existing_path}

module _ {E : Type 0} (host : Host E) where
  epoch_ticks-bounds : (l : ResourceLimits) → (1 ≤ epoch_ticks l) × (epoch_ticks l ≤ u64_max)
  unfolding epoch_ticks
  epoch_ticks-bounds l = ground arith

  -- A store that holds a guest to its request.
  pub record Confines (request : CommandRequest) (store : Store) : Type 0 where
    pub calls_granted : All (IsGranted host request) store.calls
    pub calls_made : Installs host request store.calls
    pub is_valid : validate request ≡ ok tt
    pub is_wasi : is_native request.mode ≡ false
    pub cwd_inside : allows_existing_path host.canonicalize request.grant request.cwd ≡ true
    pub memory : store.memory_size ≡ request.grant.limits.max_memory_bytes
    pub fuel : store.fuel ≡ request.grant.limits.max_fuel
    pub deadline : store.epoch_deadline ≡ epoch_ticks request.grant.limits
    pub deadline_positive : 1 ≤ store.epoch_deadline
    pub deadline_fits : store.epoch_deadline ≤ u64_max

  admit-checks :
      (request : CommandRequest)
      → admit host request ≡ ok tt
      → (validate request ≡ ok tt)
        × (is_native request.mode ≡ false)
        × (allows_existing_path host.canonicalize request.grant request.cwd ≡ true)
  unfolding admit
  admit-checks request e = ground arith

  select-IsGranted :
      (r : CommandRequest)
      → All
          (IsGranted host r)
          (map (λ e. env e.0 e.1) (selected_environment r.grant host.env_provider))
  unfolding selected_environment Grant.allows_environment
  select-IsGranted r = select_names-IsGranted host r r.grant.environment (λ name m. contains-mem m)

  cwd-IsGranted :
      (r : CommandRequest) (found : Option Text)
      → IsFound host r found
      → All (IsGranted host r) (elim found [ none ↦ [] | some cwd ↦ initial_cwd cwd ∷ [] ])
  cwd-IsGranted r none h = tt
  cwd-IsGranted r (some cwd) h = (inr h, tt)

  store_for-IsGranted :
      (request : CommandRequest) (r : List BuilderCall × Option Text)
      → MountsWell host request r
      → All (IsGranted host request) (store_for host request r).calls
  unfolding store_for
  store_for-IsGranted request (mounts, found) (m, h) =
      let g = request.grant in
      let P = IsGranted host request in
      let setup =
        set_args request.args ∷ initial_cwd (text "/workspace") ∷ set_stdout ∷ set_stderr ∷ [] in
      let vars = map (λ e. env e.0 e.1) (selected_environment g host.env_provider) in
      let network = apply (from_grant g) in
      let cwd : List BuilderCall = elim found [ none ↦ [] | some c ↦ initial_cwd c ∷ [] ] in
      let with_vars =
        All-append P setup vars (refl, (inl refl, (tt, (tt, tt)))) (select-IsGranted request) in
      let with_network =
        All-append P (setup ++ vars) network with_vars (apply-IsGranted host request) in
      let with_mounts = All-append P (setup ++ vars ++ network) mounts with_network m in
      All-append P (setup ++ vars ++ network ++ mounts) cwd with_mounts
        (cwd-IsGranted request found h)

  store_for-Confines :
      (request : CommandRequest) (r : List BuilderCall × Option Text)
      → admit host request ≡ ok tt
      → MountsWell host request r
      → All (IsOpened host r.0) request.grant.filesystems
      → Confines request (store_for host request r)
  unfolding store_for
  store_for-Confines request r admitted m opened =
      let (valid, is_wasi, inside) = admit-checks request admitted in
      let (positive, fits) = epoch_ticks-bounds request.grant.limits in
      record {
        calls_granted = store_for-IsGranted request r m;
        calls_made = store_for-Installs host request r opened;
        is_valid = valid;
        is_wasi = is_wasi;
        cwd_inside = inside;
        memory = refl;
        fuel = refl;
        deadline = refl;
        deadline_positive = positive;
        deadline_fits = fits;
      }

  -- Whenever `build_store` succeeds, the request is valid, asks for WASI, and
  -- `allows_existing_path` accepts its working directory. The guest is given nothing else than:
  -- the arguments of the request; a working directory that is `/workspace` or the guest's name, below
  -- a grant, of the one asked for; the resolved roots of grants as directories, with the access of
  -- those grants; variables that are allowed, with the host's values. All that is needed is there: the
  -- arguments are passed, both outputs are captured, every granted root is opened, name lookup and
  -- UDP are turned off, TCP is turned on or off as the grant names ports or not, and if it names some,
  -- sockets are checked by its policy. The memory, the fuel and the deadline are those of the grant,
  -- and the deadline is at least one tick and fits u64.
  pub build_store-Confines :
      (request : CommandRequest) {store : Store}
      → build_store host request ≡ ok store
      → Confines request store
  unfolding build_store
  build_store-Confines request {store} e =
      let (_, admitted, mounting) = >>=-eq-ok (admit host request) _ e in
      let (r, mounted, linking) =
        >>=-eq-ok (mount_grants host request.cwd 0 request.grant.filesystems none) _ mounting in
      let (_, _, fuelling) =
        >>=-eq-ok (map_err RuntimeError.wasi (fail_if host.linker_error)) _ linking in
      let (_, _, last) =
        >>=-eq-ok
          (map_err RuntimeError.wasi (fail_if (host.fuel_error request.grant.limits.max_fuel))) _
          fuelling in
      let k : store ≡ store_for host request r = cc in
      subst (λ x. Confines request x) (sym k)
        (store_for-Confines request r admitted
          (mount_grants-MountsWell host request 0 request.grant.filesystems none r
            (λ f member. member) tt mounted)
          (mount_grants-IsOpened host request.cwd 0 request.grant.filesystems none r mounted))
