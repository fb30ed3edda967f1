-- ===== src/FilePath/Parse.antt =====
-- `Path::components` on Unix, from the text of a path.
use ferrous_runtime.Prelude.{
  ◌≡◌, ◌==◌, ◌&&◌, ◌∷◌, ◌++◌, [], ℕ, List, Bool, true, false, not, all, arith, refl, if◌then◌else◌,
  ap, is_empty, ◌∙◌,
}
use ferrous_runtime.Text.{Text, text_eq}
use ferrous_runtime.FilePath.{
  FilePath, Component, root_dir, cur_dir, parent_dir, normal, name_text, relative_text, to_text,
}

-- A name that a path can have: not empty, without a separator, and neither `.` nor `..`.
abbrev pub is_name : Text → Bool
is_name t =
    not (is_empty t)
    && all (λ c. not (c == 47)) t
    && not (text_eq t (b'.' ∷ []))
    && not (text_eq t (b'.' ∷ b'.' ∷ []))

abbrev pub is_named : Component → Bool
is_named (normal t) = is_name t
is_named _ = false

-- An absolute path of names.
abbrev pub is_plain : FilePath → Bool
is_plain (root_dir ∷ p) = all is_named p
is_plain _ = false

abbrev extend_first : ℕ → List Text → List Text
extend_first c [] = (c ∷ []) ∷ []
extend_first c (t ∷ ts) = (c ∷ t) ∷ ts

-- The parts between separators.
unfoldable pub split_parts : Text → List Text
split_parts [] = [] ∷ []
split_parts (c ∷ cs) =
    let rest = split_parts cs in if c == 47 then [] ∷ rest else extend_first c rest

-- Empty parts and `.` are dropped.
unfoldable pub components_of : List Text → FilePath
components_of [] = []
components_of (t ∷ ts) =
    let rest = components_of ts in
    if is_empty t
    then rest
    else if text_eq t (b'.' ∷ [])
    then rest
    else if text_eq t (b'.' ∷ b'.' ∷ [])
    then parent_dir ∷ rest
    else normal t ∷ rest

-- The `.` that a relative path begins with is kept.
abbrev with_first : List Text → FilePath → FilePath
with_first [] p = p
with_first (t ∷ ts) p = if text_eq t (b'.' ∷ []) then cur_dir ∷ p else p

unfoldable pub from_text : Text → FilePath
unfolding split_parts components_of
from_text [] = []
from_text (c ∷ cs) =
    if c == 47
    then root_dir ∷ components_of (split_parts cs)
    else with_first (split_parts (c ∷ cs)) (components_of (split_parts (c ∷ cs)))

split-name : (t : Text) → all (λ c. not (c == 47)) t ≡ true → split_parts t ≡ t ∷ []
unfolding split_parts
split-name [] h = refl
split-name (c ∷ cs) h = ground (arith, ap (extend_first c) (split-name cs (ground arith)))

split-name_rest :
    (t rest : Text)
    → all (λ c. not (c == 47)) t ≡ true
    → split_parts (t ++ 47 ∷ rest) ≡ t ∷ split_parts rest
unfolding split_parts
split-name_rest [] rest h = refl
split-name_rest (c ∷ cs) rest h =
    ground (arith, ap (extend_first c) (split-name_rest cs rest (ground arith)))

-- The parts of a path of names are the names.
components-relative :
    (p : FilePath) → all is_named p ≡ true → components_of (split_parts (relative_text p)) ≡ p
unfolding relative_text name_text components_of split_parts
components-relative [] h = refl
components-relative (root_dir ∷ p) h = absurd (ground arith)
components-relative (cur_dir ∷ p) h = absurd (ground arith)
components-relative (parent_dir ∷ p) h = absurd (ground arith)
components-relative (normal t ∷ []) h =
    ap components_of (split-name t (ground arith)) ∙ ground arith
components-relative (normal t ∷ d ∷ p) h =
    ap components_of (split-name_rest t (relative_text (d ∷ p)) (ground arith))
    ∙ ground (arith, components-relative (d ∷ p) (ground arith))

-- The text of an absolute path of names parses back to the path.
pub from_text-to_text : (p : FilePath) → is_plain p ≡ true → from_text (to_text p) ≡ p
unfolding from_text to_text
from_text-to_text [] h = absurd (ground arith)
from_text-to_text (root_dir ∷ p) h = ap (λ q. root_dir ∷ q) (components-relative p h)
from_text-to_text (cur_dir ∷ p) h = absurd (ground arith)
from_text-to_text (parent_dir ∷ p) h = absurd (ground arith)
from_text-to_text (normal t ∷ p) h = absurd (ground arith)
