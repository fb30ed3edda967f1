-- ===== src/Capability/Filesystem.antt =====
-- `FilesystemGrant` of crates/wasi-runtime/src/capability.rs, with the lexical checks on paths.
pub mod Guest
use ferrous_runtime.Prelude.{
  Bool, true, false, not, ◌&&◌, Option, none, some, Result, ok, err, ◌>>◌, all, is_empty,
  if◌then◌else◌,
}
use ferrous_runtime.Text.{Text, to_str}
use ferrous_runtime.FilePath.{
  FilePath, Component, cur_dir, parent_dir, is_absolute, starts_with, strip_prefix, join, to_text,
}
use ferrous_runtime.Capability.Limits.{CapabilityError, invalid_path}

pub data FilesystemAccess : Type 0 where
  read read_write : FilesystemAccess

pub record FilesystemGrant : Type 0 where
  pub root : FilePath
  pub access : FilesystemAccess

-- `matches!(component, Component::ParentDir | Component::CurDir)`.
abbrev pub is_dots : Component → Bool
is_dots parent_dir = true
is_dots cur_dir = true
is_dots _ = false

unfoldable pub is_safe_absolute_path : FilePath → Bool
is_safe_absolute_path path = is_absolute path && all (λ c. not (is_dots c)) path

unfoldable pub validate_path : FilePath → Result CapabilityError (Unit {0})
validate_path path = if not (is_safe_absolute_path path) then err (invalid_path path) else ok tt

-- `FilesystemGrant::new`.
unfoldable pub new : FilePath → FilesystemAccess → Result CapabilityError FilesystemGrant
unfolding validate_path
new root access = do validate_path root; ok (record { root = root; access = access })

unfoldable pub allows : FilesystemGrant → FilePath → Bool
allows grant path = is_safe_absolute_path path && starts_with path grant.root

-- The path under which the guest finds a host path below the root. The root of the guest is a text.
unfoldable pub guest_path_for : FilesystemGrant → FilePath → FilePath → Option Text
guest_path_for grant path guest_root =
    if not (allows grant path) then none else elim (strip_prefix path grant.root) [
      | none ↦ none
      | some relative ↦
          to_str (to_text (if is_empty relative then guest_root else join guest_root relative))
    ]
