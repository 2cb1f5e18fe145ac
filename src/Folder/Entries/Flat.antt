-- ===== src/Folder/Entries/Flat.antt =====
-- Two folders with files only, from the listing to the mark of the folders
-- (crates/openbc-ui-qt/cpp/viewers/folder/folder_compare_viewer.h).
use mathlib.Core.List.{Perm}
use mathlib.Core.List.Perm
use open_bc.Prelude.{
  Bool, true, false, ◌&&◌, ◌||◌, negate, beq, List, [], ◌∷◌, Text, codes, same, if◌then◌else◌, ◌≡◌,
}
use open_bc.Prelude.Qt.{Qt}
use open_bc.Files.Archives.{ArchiveTable}
use open_bc.Folder.Filter.{Masks, filter_matches}
use open_bc.Folder.Status.{is_same}
use open_bc.Folder.Entries.{
  SideInfo, EntryPair, CompareOptions, EngineRow, Paths, entry_path, make_engine_side,
  relative_filter_path, classified,
}
use open_bc.Folder.Run.Levels.{Rows, no_rows, settles}

-- The rows of a folder in which nothing is entered and no contents are compared.
unfoldable pub settled_rows : List EntryPair → Rows
settled_rows [] = no_rows
settled_rows (e ∷ es) = settles e (settled_rows es)

-- A pair of files, one of which is there.
unfoldable pub IsFileRow : EngineRow → Type 0
IsFileRow row =
    (row.left.is_dir ≡ false)
    × (row.right.is_dir ≡ false)
    × ((row.left.exists || row.right.exists) ≡ true)

-- The library found the contents equal, and not a link on one side and a file on the other.
unfoldable pub is_equal_row : EngineRow → Bool
is_equal_row row =
    same row.status (codes "equal")
    && negate
        (row.left.exists && row.right.exists && negate (beq row.left.is_link row.right.is_link))

or_unlike : EntryPair → Bool → Bool
or_unlike e b = negate (is_same e.pair_class) || b

or_entered : EntryPair → Bool → Bool
or_entered e b = e.recurse || b

module _ (qt : Qt) (table : ArchiveTable) (masks : Masks) (paths : Paths) (options : CompareOptions)
    (left_path right_path root_left root_right : Text) where
  -- The filters let the file through, by the path of the side that is there.
  unfoldable pub passes : EngineRow → Bool
  passes row =
      let relative =
        relative_filter_path paths (if row.left.exists then root_left else root_right) (
          if row.left.exists
          then entry_path paths left_path row.name
          else entry_path paths right_path row.name) in
      filter_matches masks options.include_files relative
      && negate (filter_matches masks options.exclude_files relative)

  unfoldable pub any_unequal : List EngineRow → Bool
  any_unequal [] = false
  any_unequal (row ∷ rows) = (passes row && negate (is_equal_row row)) || any_unequal rows

  module _ (row : EngineRow) where
    abbrev left_side : SideInfo
    left_side = make_engine_side paths qt row.left row.name left_path

    abbrev right_side : SideInfo
    right_side = make_engine_side paths qt row.right row.name right_path

    kept : EntryPair
    unfolding classified
    kept = classified left_side right_side row.status
