-- ===== src/Cli/Resolve.antt =====
-- `resolveLaunchKind` (crates/openbc-ui-qt/cpp/app/cli_options.cpp): the session kind of a request.
pub mod Answer
use open_bc.Prelude.{
  Bool, true, false, ◌&&◌, ◌||◌, List, [], ◌∷◌, ◌++◌, Text, codes, same, is_empty, negate, has_char,
  starts_with, if◌then◌else◌,
}
use open_bc.Prelude.Qt.{Qt}
use open_bc.Viewers.{ViewerKind, same_viewer}
use open_bc.Files.Archives.{ArchiveTable, both_archives}
use open_bc.Files.Disk.{Disk}
use open_bc.Files.Kinds.{classify_file_path, session_kind_for_viewer}
use open_bc.Cli.{LaunchRequest, kind_for_type}

-- `path.contains("://")`.
unfoldable pub looks_remote : Text → Bool
looks_remote [] = false
looks_remote (c ∷ path) = starts_with (c ∷ path) (codes "://") || looks_remote path

-- A remote path is not stat'ed: one with no suffix is taken for a folder.
unfoldable pub is_directory : Qt → Disk → Text → Bool
is_directory qt disk path =
    if looks_remote path then is_empty (qt.suffix path) else disk.is_dir path

unfoldable pub folder_against_file : Text → Text → Text
folder_against_file l r = codes "cannot compare a folder with a file: " ++ l ++ codes " <-> " ++ r

-- The viewer for two files: that of both, and text where they differ.
unfoldable pub chosen_viewer : ViewerKind → ViewerKind → ViewerKind
chosen_viewer a b = if same_viewer a b then a else ViewerKind.text

unfoldable pub without_version : Text → Text
without_version kind = if same kind (codes "version-compare") then codes "hex-compare" else kind

module _ (qt : Qt) (table : ArchiveTable) (disk : Disk) (models : List Text) where
  -- The kind for two paths that are no folders; the right one may be empty.
  unfoldable pub file_kind : Text → Text → Text
  unfolding chosen_viewer without_version
  file_kind l r =
      if both_archives qt table l r
      then codes "folder-compare"
      else let a = classify_file_path qt models l in
        let b = if is_empty r then a else classify_file_path qt models r in
        without_version (session_kind_for_viewer (chosen_viewer a b))

  -- The kind and the error for a left and a right path, one of which may be empty.
  unfoldable pub path_kind : Text → Text → Text × Text
  path_kind l r =
      let left_dir = negate (is_empty l) && is_directory qt disk l in
      let right_dir = negate (is_empty r) && is_directory qt disk r in
      if left_dir || right_dir
      then if (negate (is_empty l) && negate left_dir) || (negate (is_empty r) && negate right_dir)
        then ([], folder_against_file l r)
        else (codes "folder-compare", [])
      else (file_kind l r, [])

  -- The session kind, and the error.
  pub resolve_launch_kind : LaunchRequest → Text × Text
  resolve_launch_kind request =
      if negate (is_empty request.compare_type)
      then (kind_for_type qt request.compare_type, [])
      else if is_empty request.left && is_empty request.right
      then ([], [])
      else path_kind request.left request.right
