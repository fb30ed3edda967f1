-- ===== src/Tests/Paths.antt =====
-- The guest's paths at concrete inputs.
use ferrous_runtime.Prelude.{◌≡◌, ◌∷◌, ◌++◌, [], some, refl, true}
use ferrous_runtime.Text.{text, text_eq, to_str}
use ferrous_runtime.FilePath.{
  FilePath, root_dir, normal, is_absolute, starts_with, component_eq, strip_prefix, join,
  append_path, to_text, relative_text, name_text,
}
use ferrous_runtime.FilePath.Parse.{from_text, is_plain}
use ferrous_runtime.Capability.Filesystem.{
  FilesystemGrant, read, guest_path_for, allows, is_safe_absolute_path,
}
use ferrous_runtime.Capability.Filesystem.Guest.{guest_path_for-from_text}
use ferrous_runtime.Tests.Fixtures.{work}

abbrev work_grant : FilesystemGrant
work_grant = record { root = work; access = read }

abbrev source_dir : FilePath
source_dir = work ++ normal (text "src") ∷ normal (text "bin") ∷ []

abbrev workspace : FilePath
workspace = root_dir ∷ normal (text "workspace") ∷ []

source_dir-guest : guest_path_for work_grant source_dir workspace ≡ some (text "/workspace/src/bin")
unfolding guest_path_for allows is_safe_absolute_path is_absolute starts_with component_eq text_eq
    strip_prefix join append_path to_text relative_text name_text to_str
source_dir-guest = refl

work-is_absolute : is_absolute work ≡ true
unfolding is_absolute
work-is_absolute = refl

names_are_plain : (is_plain source_dir ≡ true) × (is_plain workspace ≡ true)
unfolding text_eq
names_are_plain = (refl, refl)

guest_path_for-from_text_example :
    (relative : FilePath) × (source_dir ≡ work ++ relative)
    × (from_text (text "/workspace/src/bin") ≡ workspace ++ relative)
guest_path_for-from_text_example =
    guest_path_for-from_text work_grant source_dir workspace work-is_absolute names_are_plain.0
      names_are_plain.1 source_dir-guest
