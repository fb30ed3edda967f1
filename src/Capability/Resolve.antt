-- ===== src/Capability/Resolve.antt =====
-- The checks of crates/wasi-runtime/src/capability.rs that ask the file system.
-- `fs::canonicalize` is a parameter: what it answers for each path, `none` where it fails.
pub mod Nearest
pub mod Contained
use ferrous_runtime.Prelude.{
  ℕ, zero, suc, Bool, false, not, List, [], ◌∷◌, Option, none, some, any, length, if◌then◌else◌,
}
use ferrous_runtime.Text.{Text}
use ferrous_runtime.FilePath.{FilePath, normal, starts_with, join, file_name, pop}
use ferrous_runtime.Capability.Filesystem.{FilesystemGrant}
use ferrous_runtime.Capability.Grant.{CapabilityGrant, allows_path}

-- `resolved.push(component)` for each name of `suffix`, the newest first.
unfoldable pub push_names : FilePath → List Text → FilePath
push_names resolved [] = resolved
push_names resolved (name ∷ suffix) = push_names (join resolved (normal name ∷ [])) suffix

module _ (canonicalize : FilePath → Option FilePath) where
  -- The `loop`, on fuel; the outer `none` means that the fuel ran out. The source pushes to the end
  -- of `suffix` and walks it backwards; here the newest name is the head.
  unfoldable pub resolve_from : ℕ → FilePath → List Text → Option (Option FilePath)
  resolve_from zero current suffix = none
  resolve_from (suc fuel) current suffix = elim (canonicalize current) [
    | some resolved ↦ some (some (push_names resolved suffix))
    | none ↦ elim (file_name current) [
      | none ↦ some none
      | some name ↦ elim (pop current) [
        | none ↦ some none
        | some parent ↦ resolve_from fuel parent (name ∷ suffix)
      ]
    ]
  ]

  -- `canonicalize_with_existing_parent`: each round shortens the path, so its length is enough fuel.
  unfoldable pub canonicalize_with_existing_parent : FilePath → Option FilePath
  unfolding resolve_from
  canonicalize_with_existing_parent path = elim (resolve_from (suc (length path)) path []) [
    | none ↦ none
    | some found ↦ found
  ]

  -- Whether a resolved path lies below the resolved root of a grant.
  unfoldable pub resolves_below : FilePath → FilesystemGrant → Bool
  resolves_below resolved_path grant = elim (canonicalize grant.root) [
    | none ↦ false
    | some resolved_root ↦ starts_with resolved_path resolved_root
  ]

  unfoldable pub allows_existing_path : CapabilityGrant → FilePath → Bool
  allows_existing_path grant path =
      if not (allows_path grant path)
      then false
      else elim (canonicalize_with_existing_parent path) [
        | none ↦ false
        | some resolved_path ↦ any (resolves_below resolved_path) grant.filesystems
      ]
