-- ===== src/FilePath.antt =====
-- `std::path::Path` on Unix, up to its own `==`, which compares components: a path is the list that
-- `components()` yields. A `root_dir` stands at the head only, a `cur_dir` at the head of a relative
-- path only, since `components()` drops every other `.` and every empty part.
pub mod Parse
use ferrous_runtime.Prelude.{
  Bool, true, false, ◌&&◌, List, [], ◌∷◌, ◌++◌, Option, none, some, if◌then◌else◌,
}
use ferrous_runtime.Text.{Text, text_eq}

pub data Component : Type 0 where
  root_dir cur_dir parent_dir : Component
  normal : Text → Component

abbrev pub FilePath : Type 0
FilePath = List Component

unfoldable pub component_eq : Component → Component → Bool
component_eq root_dir root_dir = true
component_eq cur_dir cur_dir = true
component_eq parent_dir parent_dir = true
component_eq (normal s) (normal t) = text_eq s t
component_eq _ _ = false

-- `Path::is_absolute`.
unfoldable pub is_absolute : FilePath → Bool
is_absolute (root_dir ∷ p) = true
is_absolute _ = false

-- `Path::strip_prefix`.
unfoldable pub strip_prefix : FilePath → FilePath → Option FilePath
strip_prefix p [] = some p
strip_prefix [] (b ∷ base) = none
strip_prefix (c ∷ p) (b ∷ base) = if component_eq c b then strip_prefix p base else none

-- `Path::starts_with`.
unfoldable pub starts_with : FilePath → FilePath → Bool
starts_with p [] = true
starts_with [] (b ∷ base) = false
starts_with (c ∷ p) (b ∷ base) = component_eq c b && starts_with p base

abbrev without_cur_dir : FilePath → FilePath
without_cur_dir (cur_dir ∷ p) = p
without_cur_dir p = p

unfoldable pub append_path : FilePath → FilePath → FilePath
append_path [] q = q
append_path (c ∷ p) q = (c ∷ p) ++ without_cur_dir q

-- `PathBuf::push` and `Path::join`: an absolute second path replaces the first.
unfoldable pub join : FilePath → FilePath → FilePath
unfolding append_path
join p q = if is_absolute q then q else append_path p q

-- `Path::file_name`: the last component, if it is a name.
unfoldable pub file_name : FilePath → Option Text
file_name [] = none
file_name (normal t ∷ []) = some t
file_name (root_dir ∷ []) = none
file_name (cur_dir ∷ []) = none
file_name (parent_dir ∷ []) = none
file_name (c ∷ d ∷ p) = file_name (d ∷ p)

-- All components but the last.
unfoldable pub init : FilePath → FilePath
init [] = []
init (c ∷ []) = []
init (c ∷ d ∷ p) = c ∷ init (d ∷ p)

-- `PathBuf::pop`: `none` where it returns false, at the root and at the empty path.
unfoldable pub pop : FilePath → Option FilePath
unfolding init
pop [] = none
pop (root_dir ∷ []) = none
pop (c ∷ p) = some (init (c ∷ p))

-- The text of a path, with one `/` between components.
unfoldable pub name_text : Component → Text
name_text root_dir = []
name_text cur_dir = b'.' ∷ []
name_text parent_dir = b'.' ∷ b'.' ∷ []
name_text (normal t) = t

unfoldable pub relative_text : FilePath → Text
unfolding name_text
relative_text [] = []
relative_text (c ∷ []) = name_text c
relative_text (c ∷ d ∷ p) = name_text c ++ b'/' ∷ relative_text (d ∷ p)

unfoldable pub to_text : FilePath → Text
unfolding relative_text
to_text (root_dir ∷ p) = b'/' ∷ relative_text p
to_text p = relative_text p
