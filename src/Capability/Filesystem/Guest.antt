-- ===== src/Capability/Filesystem/Guest.antt =====
-- `guest_path_for` of crates/wasi-runtime/src/capability.rs, and the way back from its text.
use ferrous_runtime.Prelude.{
  ◌≡◌, ◌∷◌, ◌++◌, [], true, some, all, arith, refl, ap, sym, subst, ◌∙◌, Option-cases, Bool-cases,
  inl, inr, is_empty, if◌then◌else◌, append-nil, all-append,
}
use ferrous_runtime.Text.{Text, eq_of_text_eq, to_str}
use ferrous_runtime.FilePath.{
  FilePath, Component, root_dir, cur_dir, parent_dir, normal, component_eq, strip_prefix, join,
  to_text, is_absolute, append_path,
}
use ferrous_runtime.FilePath.Parse.{is_plain, is_named, from_text, from_text-to_text}
use ferrous_runtime.Capability.Filesystem.{FilesystemGrant, guest_path_for}

component_eq_sound : (c d : Component) → component_eq c d ≡ true → c ≡ d
unfolding component_eq
component_eq_sound root_dir root_dir h = refl
component_eq_sound cur_dir cur_dir h = refl
component_eq_sound parent_dir parent_dir h = refl
component_eq_sound (normal s) (normal t) h = ap normal (eq_of_text_eq s t h)
component_eq_sound root_dir cur_dir h = absurd (ground arith)
component_eq_sound root_dir parent_dir h = absurd (ground arith)
component_eq_sound root_dir (normal t) h = absurd (ground arith)
component_eq_sound cur_dir root_dir h = absurd (ground arith)
component_eq_sound cur_dir parent_dir h = absurd (ground arith)
component_eq_sound cur_dir (normal t) h = absurd (ground arith)
component_eq_sound parent_dir root_dir h = absurd (ground arith)
component_eq_sound parent_dir cur_dir h = absurd (ground arith)
component_eq_sound parent_dir (normal t) h = absurd (ground arith)
component_eq_sound (normal s) root_dir h = absurd (ground arith)
component_eq_sound (normal s) cur_dir h = absurd (ground arith)
component_eq_sound (normal s) parent_dir h = absurd (ground arith)

-- What is left of a path below a base is what follows the base.
pub strip_prefix-rest :
    (p base relative : FilePath) → strip_prefix p base ≡ some relative → p ≡ base ++ relative
unfolding strip_prefix
strip_prefix-rest p [] relative e = ground arith
strip_prefix-rest [] (b ∷ base) relative e = absurd (ground arith)
strip_prefix-rest (c ∷ p) (b ∷ base) relative e = elim (Bool-cases (component_eq c b)) [
  | inl same ↦
      ap (λ x. x ∷ p) (component_eq_sound c b same)
      ∙ ap (λ q. b ∷ q) (strip_prefix-rest p base relative (ground arith))
  | inr other ↦ absurd (ground arith)
]

-- Joined, an absolute path of names and names are an absolute path of names.
join-plain :
    (guest_root relative : FilePath)
    → is_plain guest_root ≡ true
    → all is_named relative ≡ true
    → join guest_root relative ≡ guest_root ++ relative
unfolding join append_path is_absolute
join-plain [] relative g h = absurd (ground arith)
join-plain (root_dir ∷ p) [] g h = refl
join-plain (root_dir ∷ p) (normal t ∷ relative) g h = refl
join-plain (root_dir ∷ p) (root_dir ∷ relative) g h = absurd (ground arith)
join-plain (root_dir ∷ p) (cur_dir ∷ relative) g h = absurd (ground arith)
join-plain (root_dir ∷ p) (parent_dir ∷ relative) g h = absurd (ground arith)
join-plain (cur_dir ∷ p) relative g h = absurd (ground arith)
join-plain (parent_dir ∷ p) relative g h = absurd (ground arith)
join-plain (normal t ∷ p) relative g h = absurd (ground arith)

plain-append :
    (p q : FilePath) → is_plain p ≡ true → all is_named q ≡ true → is_plain (p ++ q) ≡ true
plain-append [] q g h = absurd (ground arith)
plain-append (root_dir ∷ p) q g h = ground (arith, all-append is_named p q)
plain-append (cur_dir ∷ p) q g h = absurd (ground arith)
plain-append (parent_dir ∷ p) q g h = absurd (ground arith)
plain-append (normal t ∷ p) q g h = absurd (ground arith)

-- What follows an absolute root in an absolute path of names.
rest-named :
    (root relative : FilePath)
    → is_absolute root ≡ true
    → is_plain (root ++ relative) ≡ true
    → all is_named relative ≡ true
unfolding is_absolute
rest-named [] relative a h = absurd (ground arith)
rest-named (root_dir ∷ root) relative a h = ground (arith, all-append is_named root relative)
rest-named (cur_dir ∷ root) relative a h = absurd (ground arith)
rest-named (parent_dir ∷ root) relative a h = absurd (ground arith)
rest-named (normal t ∷ root) relative a h = absurd (ground arith)

to_str-some : (t u : Text) → to_str t ≡ some u → t ≡ u
unfolding to_str
to_str-some t u e = ground arith

-- The guest's path before it becomes a text.
abbrev below : FilePath → FilePath → FilePath
below guest_root relative = if is_empty relative then guest_root else join guest_root relative

below-append :
    (guest_root relative : FilePath)
    → is_plain guest_root ≡ true
    → all is_named relative ≡ true
    → below guest_root relative ≡ guest_root ++ relative
below-append guest_root [] g h = sym (append-nil guest_root)
below-append guest_root (c ∷ relative) g h = join-plain guest_root (c ∷ relative) g h

answered :
    (grant : FilesystemGrant) (path guest_root : FilePath) (t : Text)
    → guest_path_for grant path guest_root ≡ some t
    → (relative : FilePath) × (strip_prefix path grant.root ≡ some relative)
      × (to_str (to_text (below guest_root relative)) ≡ some t)
unfolding guest_path_for
answered grant path guest_root t e = elim (Option-cases (strip_prefix path grant.root)) [
  | inl s ↦ absurd (ground arith)
  | inr (relative, s) ↦ (relative, s, ground arith)
]

-- If the guest is given a path for a host path, under an absolute root and with absolute paths of names,
-- then the text that it is given parses to the guest's root and what follows the granted root in the
-- host path: the guest's path names the same place below the guest's root, and no other.
pub guest_path_for-from_text :
    (grant : FilesystemGrant) (path guest_root : FilePath) {t : Text}
    → is_absolute grant.root ≡ true
    → is_plain path ≡ true
    → is_plain guest_root ≡ true
    → guest_path_for grant path guest_root ≡ some t
    → (relative : FilePath) × (path ≡ grant.root ++ relative)
      × (from_text t ≡ guest_root ++ relative)
guest_path_for-from_text grant path guest_root {t} a p g e =
    let (relative, stripped, told) = answered grant path guest_root t e in
    let split = strip_prefix-rest path grant.root relative stripped in
    let named = rest-named grant.root relative a (subst (λ q. is_plain q ≡ true) split p) in
    let place = guest_root ++ relative in
    (
      relative,
      split,
      ap from_text (sym (to_str-some (to_text (below guest_root relative)) t told))
          ∙ ap (λ q. from_text (to_text q)) (below-append guest_root relative g named)
          ∙ from_text-to_text place (plain-append guest_root relative g named),
    )
