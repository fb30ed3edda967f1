-- ===== src/Capability/Resolve/Nearest.antt =====
-- The ancestor that `canonicalize_with_existing_parent` of crates/wasi-runtime/src/capability.rs finds.
use ferrous_runtime.Prelude.{
  dec_lt, ◌∙◌, ◌≡◌, Option, length, some, ℕ, ◌∷◌, ◌+◌, ◌++◌, List, ap, arith, ◌<◌, suc, [], zero,
  Option-cases, map, none, refl, inr, take, inl, map-append, sym, append_assoc, append-nil,
  take-append, take_all, length-append,
}
use ferrous_runtime.Capability.Resolve.{push_names, resolve_from, canonicalize_with_existing_parent}
use ferrous_runtime.FilePath.{
  init, pop, file_name, FilePath, Component, normal, cur_dir, parent_dir, root_dir,
}
use ferrous_runtime.Text.{Text}

length-init : (c : Component) (p : FilePath) → length (init (c ∷ p)) ≡ length p
unfolding init
length-init c [] = refl
length-init c (d ∷ p) = ap suc (length-init d p)

-- Popping shortens a path by one component.
pub length-pop : (p : FilePath) {q : FilePath} → pop p ≡ some q → length p ≡ length q + 1
unfolding pop
length-pop [] e = absurd (ground arith)
length-pop (root_dir ∷ []) e = absurd (ground arith)
length-pop (root_dir ∷ d ∷ p) e = ground (arith, length-init root_dir (d ∷ p))
length-pop (cur_dir ∷ p) e = ground (arith, length-init cur_dir p)
length-pop (parent_dir ∷ p) e = ground (arith, length-init parent_dir p)
length-pop (normal t ∷ p) e = ground (arith, length-init (normal t) p)

init-file_name :
    (c : Component) (p : FilePath) {name : Text}
    → file_name (c ∷ p) ≡ some name
    → c ∷ p ≡ init (c ∷ p) ++ normal name ∷ []
unfolding file_name init
init-file_name (normal t) [] f = ground arith
init-file_name root_dir [] f = cc
init-file_name cur_dir [] f = cc
init-file_name parent_dir [] f = cc
init-file_name root_dir (d ∷ p) f = ap (◌∷◌ root_dir) (init-file_name d p f)
init-file_name cur_dir (d ∷ p) f = ap (◌∷◌ cur_dir) (init-file_name d p f)
init-file_name parent_dir (d ∷ p) f = ap (◌∷◌ parent_dir) (init-file_name d p f)
init-file_name (normal t) (d ∷ p) f = ap (◌∷◌ (normal t)) (init-file_name d p f)

-- A path whose last component is a name is its parent with that name.
pub pop-file_name :
    (p : FilePath) {q : FilePath} {name : Text}
    → file_name p ≡ some name
    → pop p ≡ some q
    → p ≡ q ++ normal name ∷ []
unfolding file_name pop
pop-file_name [] f e = cc
pop-file_name (root_dir ∷ []) f e = cc
pop-file_name (root_dir ∷ d ∷ p) f e = ground (arith, init-file_name root_dir (d ∷ p) f)
pop-file_name (cur_dir ∷ p) f e = ground (arith, init-file_name cur_dir p f)
pop-file_name (parent_dir ∷ p) f e = ground (arith, init-file_name parent_dir p f)
pop-file_name (normal t ∷ p) f e = ground (arith, init-file_name (normal t) p f)

module _ (canonicalize : FilePath → Option FilePath) where
  -- With more fuel than the path has components, the walk to the nearest ancestor that resolves
  -- comes to an answer.
  pub resolve_from_total :
      (fuel : ℕ) (current : FilePath) (suffix : List Text)
      → length current < fuel
      → (r : Option FilePath) × (resolve_from canonicalize fuel current suffix ≡ some r)
  unfolding resolve_from
  resolve_from_total zero current suffix h = absurd (omega arith)
  resolve_from_total (suc fuel) current suffix h = elim (Option-cases (canonicalize current)) [
    | inr (a, e) ↦ (some (push_names a suffix), rw (e, resolve_from))
    | inl e ↦ elim (Option-cases (file_name current)) [
      | inl f ↦ (none, rw (e, f, resolve_from))
      | inr (name, f) ↦ elim (Option-cases (pop current)) [
        | inl g ↦ (none, rw (e, f, g, resolve_from))
        | inr (parent, g) ↦
            let (r, found) =
              resolve_from_total fuel parent (name ∷ suffix)
                (omega (arith, length-pop current g)) in
            (r, rw (e, f, g, resolve_from) found)
      ]
    ]
  ]

  -- `r` is the resolved nearest ancestor of `path` that resolves, with the names below it.
  pub record IsNearest (path : FilePath) (suffix : List Text) (r : FilePath) : Type 0 where
    pub ancestor : FilePath
    pub names : List Text
    pub resolved : FilePath
    pub splits : path ≡ ancestor ++ map normal names
    pub resolves : canonicalize ancestor ≡ some resolved
    pub rebuilt : r ≡ push_names resolved (names ++ suffix)
    pub missing :
        (k : ℕ)
        → k < length names
        → canonicalize (ancestor ++ map normal (take (suc k) names)) ≡ none

  IsNearest-up :
      (path parent : FilePath) (name : Text) (suffix : List Text) {r : FilePath}
      → canonicalize path ≡ none
      → path ≡ parent ++ normal name ∷ []
      → IsNearest parent (name ∷ suffix) r
      → IsNearest path suffix r
  IsNearest-up path parent name suffix e p n = record {
    ancestor = n.ancestor;
    names = n.names ++ name ∷ [];
    resolved = n.resolved;
    splits = simp (map-append, p, n.splits, append_assoc);
    resolves = n.resolves;
    rebuilt = rw append_assoc n.rebuilt;
    missing = λ k below. elim (dec_lt k (length n.names)) [
      | yes inside ↦ rw (take-append (suc k) n.names (name ∷ []) inside) (n.missing k inside)
      | no last ↦
          rw
            (take_all (suc k) (n.names ++ name ∷ [])
              (omega (arith, length-append n.names (name ∷ []))))
            (rw (map-append, ← append_assoc, ← n.splits, ← p) e)
    ];
  }

  resolve_from-IsNearest :
      (fuel : ℕ) (current : FilePath) (suffix : List Text) {r : FilePath}
      → resolve_from canonicalize fuel current suffix ≡ some (some r)
      → IsNearest current suffix r
  unfolding resolve_from
  resolve_from-IsNearest zero current suffix h = cc
  resolve_from-IsNearest (suc fuel) current suffix h = elim (Option-cases (canonicalize current)) [
    | inr (a, e) ↦ record {
      ancestor = current;
      names = [];
      resolved = a;
      splits = sym (append-nil current);
      resolves = e;
      rebuilt = let k = rw (e, resolve_from) at h in cc;
      missing = λ k below. absurd (omega arith);
    }
    | inl e ↦ elim (Option-cases (file_name current)) [
      | inl f ↦ cc (rw (e, f, resolve_from) at h)
      | inr (name, f) ↦ elim (Option-cases (pop current)) [
        | inl g ↦ cc (rw (e, f, g, resolve_from) at h)
        | inr (parent, g) ↦
            IsNearest-up current parent name suffix e (pop-file_name current f g)
              (resolve_from-IsNearest fuel parent (name ∷ suffix) (rw (e, f, g, resolve_from) at h))
      ]
    ]
  ]

  -- Whenever the function answers with a path, that path is the resolved nearest ancestor of its
  -- argument that resolves at all, with the names that were cut off pushed back in order.
  pub canonicalize_with_existing_parent-IsNearest :
      (path : FilePath) {r : FilePath}
      → canonicalize_with_existing_parent canonicalize path ≡ some r
      → IsNearest path [] r
  unfolding canonicalize_with_existing_parent
  canonicalize_with_existing_parent-IsNearest path h =
      let (found, e) = resolve_from_total (suc (length path)) path [] (omega arith) in
      resolve_from-IsNearest (suc (length path)) path []
        (e ∙ ap some (rw (e, canonicalize_with_existing_parent) at h))
