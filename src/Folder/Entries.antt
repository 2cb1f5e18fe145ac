-- ===== src/Folder/Entries.antt =====
-- The entries of a pair of folders, classified (`collectEntriesFromEngine` of
-- crates/openbc-ui-qt/cpp/viewers/folder/folder_compare_viewer.h).
pub mod Flat
use open_bc.Prelude.{
  ℕ, Bool, true, false, ◌&&◌, ◌||◌, negate, beq, List, [], ◌∷◌, ◌++◌, Text, codes, same, ends_with,
  length, drop, ◌==◌, if◌then◌else◌,
}
use open_bc.Prelude.Qt.{Qt}
use open_bc.Files.Archives.{ArchiveTable, is_archive_name, depth}
use open_bc.Folder.Filter.{
  Masks, NameFilter, filter_matches, matches_or_has_matching_descendant, strip_slashes,
}
use open_bc.Folder.Status.{RowStatus, PairClass}

-- One side of a row, without the modification time, which is only shown.
pub record SideInfo : Type 0 where
  pub exists : Bool
  pub is_dir : Bool
  pub is_link : Bool
  pub name : Text
  pub path : Text
  pub ext : Text
  pub attrs : Text
  pub size : ℕ

pub record EntryPair : Type 0 where
  pub left : SideInfo
  pub right : SideInfo
  pub left_status : RowStatus
  pub right_status : RowStatus
  pub pair_class : PairClass
  pub recurse : Bool

pub record CompareOptions : Type 0 where
  pub check_content : Bool
  pub archives_as_folders : Bool
  pub include_files : NameFilter
  pub exclude_files : NameFilter
  pub include_folders : NameFilter
  pub exclude_folders : NameFilter

-- What the Rust library says of an entry and of each of its sides.
pub record EngineSide : Type 0 where
  pub exists : Bool
  pub is_dir : Bool
  pub is_link : Bool
  pub size : ℕ

pub record EngineRow : Type 0 where
  pub name : Text
  pub status : Text
  pub left : EngineSide
  pub right : EngineSide

-- `QDir(parent).filePath(name)`, and `QDir(root).relativeFilePath(path)` with slashes.
pub record Paths : Type 0 where
  pub file_path : Text → Text → Text
  pub relative_file_path : Text → Text → Text

abbrev no_side : SideInfo
no_side = record {
  exists = false;
  is_dir = false;
  is_link = false;
  name = [];
  path = [];
  ext = [];
  attrs = [];
  size = 0;
}

-- `contains("://")`.
unfoldable pub starts_scheme : Text → Bool
starts_scheme (a ∷ b ∷ c ∷ t) = a == b':' && b == b'/' && c == b'/'
starts_scheme _ = false

unfoldable pub has_scheme : Text → Bool
has_scheme [] = false
has_scheme (c ∷ t) = starts_scheme (c ∷ t) || has_scheme t

module _ (paths : Paths) where
  open paths use {file_path, relative_file_path}

  unfoldable pub entry_path : Text → Text → Text
  entry_path parent name =
      if has_scheme parent
      then (if ends_with parent (codes "/") then parent ++ name else parent ++ b'/' ∷ name)
      else file_path parent name

  unfoldable pub relative_filter_path : Text → Text → Text
  relative_filter_path root path =
      if has_scheme root
      then strip_slashes (drop (length root) path)
      else relative_file_path root path

  unfoldable pub make_engine_side : Qt → EngineSide → Text → Text → SideInfo
  make_engine_side qt source name parent = if negate source.exists then no_side else record {
    exists = true;
    is_dir = source.is_dir;
    is_link = source.is_link;
    name = name;
    path = entry_path parent name;
    ext = if source.is_dir then [] else qt.suffix name;
    attrs = if source.is_dir then codes "D" else [];
    size = source.size;
  }

-- A folder, or a link to one that is not followed, on a side that exists.
unfoldable pub lists : SideInfo → Bool
lists s = s.exists && s.is_dir && negate s.is_link

unfoldable pub mismatch : SideInfo → SideInfo → Bool
mismatch l r =
    l.exists && r.exists && (negate (beq l.is_dir r.is_dir) || negate (beq l.is_link r.is_link))

unfoldable pub with_class : SideInfo → SideInfo → RowStatus → RowStatus → PairClass → EntryPair
with_class l r a b c = record {
  left = l;
  right = r;
  left_status = a;
  right_status = b;
  pair_class = c;
  recurse = lists l || lists r;
}

-- What the Rust library says of a pair that is not entered.
unfoldable pub by_status : SideInfo → SideInfo → Text → EntryPair
by_status l r status =
    if same status (codes "equal")
    then with_class l r RowStatus.equal RowStatus.equal PairClass.same
    else if same status (codes "missing")
    then with_class l r RowStatus.orphan RowStatus.orphan
        (if l.exists then PairClass.orphan_left else PairClass.orphan_right)
    else if same status (codes "left-newer")
    then with_class l r RowStatus.newer RowStatus.older PairClass.left_newer
    else if same status (codes "right-newer")
    then with_class l r RowStatus.older RowStatus.newer PairClass.right_newer
    else with_class l r RowStatus.different RowStatus.different PairClass.different

unfoldable pub classified : SideInfo → SideInfo → Text → EntryPair
classified l r status =
    if mismatch l r
    then with_class l r RowStatus.different RowStatus.different PairClass.different
    else if lists l || lists r
    then with_class l r RowStatus.pending RowStatus.pending PairClass.pending
    else by_status l r status

-- A row shown as a folder.
unfoldable pub as_folder : SideInfo → SideInfo
as_folder s = record s { is_dir = true; attrs = codes "D" }

module _ (qt : Qt) (table : ArchiveTable) (masks : Masks) (paths : Paths)
    (options : CompareOptions) where
  unfoldable pub is_filtered : Bool → Text → Bool
  is_filtered is_folder relative =
      if is_folder
      then (negate (matches_or_has_matching_descendant masks options.include_folders relative)
          || filter_matches masks options.exclude_folders relative)
      else (negate (filter_matches masks options.include_files relative)
          || filter_matches masks options.exclude_files relative)

  unfoldable pub is_differing_archive : Text → Text → EngineRow → SideInfo → SideInfo → Bool
  is_differing_archive left_path right_path row l r =
      options.archives_as_folders
      && l.exists
      && r.exists
      && negate l.is_dir
      && negate r.is_dir
      && negate l.is_link
      && negate r.is_link
      && negate (same row.status (codes "equal"))
      && is_archive_name qt table row.name
      && depth qt table left_path == 0
      && depth qt table right_path == 0

  -- The body of the loop: the entries so far, and the next one unless it is filtered out.
  unfoldable pub add_row : Text → Text → Text → Text → EngineRow → List EntryPair → List EntryPair
  add_row left_path right_path root_left root_right row rest =
      let l = make_engine_side paths qt row.left row.name left_path in
      let r = make_engine_side paths qt row.right row.name right_path in
      let is_folder = (l.exists && l.is_dir) || (r.exists && r.is_dir) in
      let relative =
        relative_filter_path paths (if l.exists then root_left else root_right)
          (if l.exists then l.path else r.path) in
      if is_filtered is_folder relative
      then rest
      else if is_differing_archive left_path right_path row l r
      then classified (as_folder l) (as_folder r) row.status ∷ rest
      else classified l r row.status ∷ rest

  unfoldable pub collect_entries : Text → Text → Text → Text → List EngineRow → List EntryPair
  collect_entries left_path right_path root_left root_right [] = []
  collect_entries left_path right_path root_left root_right (row ∷ rows) =
      add_row left_path right_path root_left root_right row
        (collect_entries left_path right_path root_left root_right rows)
