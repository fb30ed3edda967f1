-- ===== src/Capability/Resolve/Contained.antt =====
-- The granted roots and the paths that `allows_existing_path` of
-- crates/wasi-runtime/src/capability.rs accepts.
use ferrous_runtime.Prelude.{
  Option, ◌≡◌, some, true, Memᴰ, Bool-cases, Option-cases, inr, [], inl, mem-any,
}
use ferrous_runtime.FilePath.{FilePath, starts_with}
use ferrous_runtime.Capability.Grant.{CapabilityGrant, allows_path}
use ferrous_runtime.Capability.Resolve.{
  resolves_below, allows_existing_path, canonicalize_with_existing_parent,
}
use ferrous_runtime.Capability.Filesystem.{FilesystemGrant, allows}
use ferrous_runtime.Capability.Resolve.Nearest.{
  IsNearest, canonicalize_with_existing_parent-IsNearest,
}

module _ (canonicalize : FilePath → Option FilePath) where
  -- The path lies below a granted root as it is written, and its nearest ancestor that resolves, with
  -- the other names pushed back, lies below the resolved root of a grant.
  pub record IsContained (grant : CapabilityGrant) (path : FilePath) : Type 0 where
    pub lexical : FilesystemGrant
    pub lexical_granted : Memᴰ lexical grant.filesystems
    pub lexically_inside : allows lexical path ≡ true
    pub resolved : FilePath
    pub nearest : IsNearest canonicalize path [] resolved
    pub granted : FilesystemGrant
    pub is_granted : Memᴰ granted grant.filesystems
    pub root : FilePath
    pub root_resolves : canonicalize granted.root ≡ some root
    pub inside : starts_with resolved root ≡ true

  resolves_below-starts_with :
      (r : FilePath) (f : FilesystemGrant)
      → resolves_below canonicalize r f ≡ true
      → (root : FilePath) × (canonicalize f.root ≡ some root) × (starts_with r root ≡ true)
  unfolding resolves_below
  resolves_below-starts_with r f h = elim (Option-cases (canonicalize f.root)) [
    | inl e ↦ cc (rw (e, resolves_below) at h)
    | inr (root, e) ↦ (root, e, rw (e, resolves_below) at h)
  ]

  -- If `allows_existing_path` says yes to a path, then a granted root allows the path as written, and
  -- its nearest ancestor that `canonicalize` resolves, resolved and with the names that were cut off
  -- pushed back, lies below the resolved root of a grant. A link whose target does not exist is
  -- among the names pushed back: nothing is said of where it leads.
  pub allows_existing_path-IsContained :
      (grant : CapabilityGrant) (path : FilePath)
      → allows_existing_path canonicalize grant path ≡ true
      → IsContained grant path
  unfolding allows_existing_path allows_path
  allows_existing_path-IsContained grant path h = elim (Bool-cases (allows_path grant path)) [
    | inr e ↦ cc (rw (e, allows_existing_path) at h)
    | inl e ↦ elim (Option-cases (canonicalize_with_existing_parent canonicalize path)) [
      | inl f ↦ cc (rw (e, f, allows_existing_path) at h)
      | inr (r, f) ↦
          let (l, lexically, ok_l) = mem-any (λ g. allows g path) grant.filesystems e in
          let (g, member, below) =
            mem-any (resolves_below canonicalize r) grant.filesystems
              (rw (e, f, allows_existing_path) at h) in
          let (root, resolves, in_root) = resolves_below-starts_with r g below in
          record {
            lexical = l;
            lexical_granted = lexically;
            lexically_inside = ok_l;
            resolved = r;
            nearest = canonicalize_with_existing_parent-IsNearest canonicalize path f;
            granted = g;
            is_granted = member;
            root = root;
            root_resolves = resolves;
            inside = in_root;
          }
    ]
  ]
