-- ===== src/Cli/Resolve/Answer.antt =====
-- What `resolveLaunchKind` (crates/openbc-ui-qt/cpp/app/cli_options.cpp) answers.
use mathlib.Core.Bool.{false≢true}
use open_bc.Prelude.{
  true, false, ◌&&◌, ◌||◌, List, [], Text, codes, same, one_of, is_empty, negate, ◌≡◌, refl, arith,
  Bool-cases, inl, inr,
}
use open_bc.Prelude.Qt.{Qt}
use open_bc.Viewers.{ViewerKind}
use open_bc.Files.Archives.{ArchiveTable}
use open_bc.Files.Disk.{Disk}
use open_bc.Files.Kinds.{session_kind_for_viewer}
use open_bc.Files.SessionKind.Canonical.{if_both}
use open_bc.Cli.{LaunchRequest, kind_for_type, has_paths}
use open_bc.Cli.Kinds.{IsViewerKind, viewer_kinds, kind_for_type-IsViewerKind}
use open_bc.Cli.Parse.Validity.{IsLaunchable}
use open_bc.Cli.Resolve.{
  resolve_launch_kind, path_kind, file_kind, without_version, folder_against_file,
}

-- A kind of a viewer that exists, and not the empty text.
IsKind : Text → Type 0
unfolding IsViewerKind
IsKind t = IsViewerKind t × (is_empty t ≡ false)

viewer-IsKind : (k : ViewerKind) → IsKind (without_version (session_kind_for_viewer k))
unfolding IsKind without_version session_kind_for_viewer viewer_kinds one_of same
viewer-IsKind ViewerKind.text = (refl, refl)
viewer-IsKind ViewerKind.picture = (refl, refl)
viewer-IsKind _ = (refl, refl)

folder-IsKind : IsKind (codes "folder-compare")
unfolding IsKind viewer_kinds one_of same
folder-IsKind = (refl, refl)

module _ (qt : Qt) (table : ArchiveTable) (disk : Disk) (models : List Text) where
  file_kind-IsKind : (l r : Text) → IsKind (file_kind qt table disk models l r)
  unfolding file_kind
  file_kind-IsKind l r = if_both IsKind _ folder-IsKind (viewer-IsKind _)

  -- One answer for a request: a kind of a viewer and no error, or an error and no kind.
  Decided : Text × Text → Type 0
  unfolding IsViewerKind
  Decided a = IsViewerKind (a.0) × (is_empty (a.0) ≡ negate (is_empty (a.1)))

  kind-Decided : (t : Text) → IsKind t → Decided (t, [])
  unfolding IsKind Decided
  kind-Decided t h = h

  error-Decided : (l r : Text) → Decided ([], folder_against_file l r)
  unfolding Decided viewer_kinds one_of same folder_against_file
  error-Decided l r = (refl, refl)

  path_kind-Decided : (l r : Text) → Decided (path_kind qt table disk models l r)
  unfolding path_kind
  path_kind-Decided l r =
      if_both Decided _ (if_both Decided _ (error-Decided l r) (kind-Decided _ folder-IsKind))
        (kind-Decided _ (file_kind-IsKind l r))

  typed-Decided :
      (type : Text)
      → (is_empty type || negate (is_empty (kind_for_type qt type))) ≡ true
      → is_empty type ≡ false
      → Decided (kind_for_type qt type, [])
  unfolding Decided
  typed-Decided type k n = (kind_for_type-IsViewerKind qt type, ground arith)

  -- A request with a path or a known comparison type gets exactly one of a kind and an error, and
  -- the kind is that of a viewer that exists.
  pub resolve-Decided :
      (request : LaunchRequest)
      → IsLaunchable qt request
      → (has_paths request || negate (is_empty request.compare_type)) ≡ true
      → IsViewerKind (resolve_launch_kind qt table disk models request).0
        × (is_empty (resolve_launch_kind qt table disk models request).0
            ≡ negate (is_empty (resolve_launch_kind qt table disk models request).1))
  unfolding resolve_launch_kind has_paths Decided
  resolve-Decided request ok some_input = elim (Bool-cases (is_empty request.compare_type)) [
    | inr typed ↦ rw typed (typed-Decided _ ok.known typed)
    | inl auto ↦ elim (Bool-cases (is_empty request.left && is_empty request.right)) [
      | inl empty ↦ absurd (false≢true (ground arith))
      | inr some_path ↦ rw (auto, some_path) (path_kind-Decided request.left request.right)
    ]
  ]
