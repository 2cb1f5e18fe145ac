-- ===== src/Folder/Run.antt =====
-- The run of a comparison over a folder and those below it: what each one adds up, and when it is
-- finished (`NodeState`, `populate`, `scheduleFileComparison` and `finishNode` of
-- crates/openbc-ui-qt/cpp/viewers/folder/folder_compare_viewer.h).
pub mod Order
pub mod Steps
pub mod Levels
pub mod Marks
pub mod Verdict
pub mod Tests
use Prim.Native.Nat.{bit_or}
use open_bc.Prelude.{
  ℕ, suc, ◌+◌, ◌-◌, Bool, true, false, ◌&&◌, ◌||◌, negate, Option, some, none, List, [], ◌∷◌, ◌++◌,
  ◌==◌, if◌then◌else◌,
}
use open_bc.Folder.Status.{RowStatus, PairClass, with_status, is_same, is_different, is_orphan}
use open_bc.Folder.Entries.{SideInfo, EntryPair, mismatch}

-- Of a row of the tree, whether it shows a folder; the folders at the top have no row.
pub record NodeState : Type 0 where
  pub left_item : Option Bool
  pub right_item : Option Bool
  pub pending_children : ℕ
  pub different : Bool
  pub left_missing : Bool
  pub right_missing : Bool
  pub mismatched : Bool
  pub pending_folders : Bool
  pub left_mask : ℕ
  pub right_mask : ℕ
  pub left_bytes : ℕ
  pub right_bytes : ℕ

-- The status is set for a row that shows a folder, or for a row at all.
unfoldable pub for_folder : RowStatus → Option Bool → ℕ → ℕ
for_folder status (some true) mask = with_status status mask
for_folder status _ mask = mask

unfoldable pub for_item : RowStatus → Option Bool → ℕ → ℕ
for_item status none mask = mask
for_item status (some is_folder) mask = with_status status mask

unfoldable pub when : Bool → RowStatus → ℕ → ℕ
when test status mask = if test then with_status status mask else mask

-- The start of `populate`; `failed` says that the listing had an error.
unfoldable pub opened_node : Option Bool → Option Bool → Bool → Bool → Bool → Bool → NodeState
opened_node left_item right_item left_missing right_missing mismatched failed = record {
  left_item = left_item;
  right_item = right_item;
  pending_children = 0;
  different = failed;
  left_missing = left_missing;
  right_missing = right_missing;
  mismatched = mismatched;
  pending_folders = false;
  left_mask = if failed then for_folder RowStatus.different left_item 0 else 0;
  right_mask = if failed then for_folder RowStatus.different right_item 0 else 0;
  left_bytes = 0;
  right_bytes = 0;
}

unfoldable pub is_plain_file : SideInfo → Bool
is_plain_file s = s.exists && negate s.is_dir && negate s.is_link

-- The contents of the two files are compared on a worker.
unfoldable pub hash_pending : Bool → EntryPair → Bool
hash_pending check_content e =
    check_content && is_plain_file e.left && is_plain_file e.right && e.left.size == e.right.size

unfoldable pub file_bytes : SideInfo → ℕ
file_bytes s = if s.exists && negate s.is_dir then s.size else 0

unfoldable pub with_bytes : EntryPair → NodeState → NodeState
with_bytes e s = record s {
  left_bytes = s.left_bytes + file_bytes e.left;
  right_bytes = s.right_bytes + file_bytes e.right;
}

-- A pair that is entered, one whose files are compared, and one that is settled.
unfoldable pub enter_folder : EntryPair → NodeState → NodeState
enter_folder e s = record s {
  pending_children = suc s.pending_children;
  different = s.different || is_different e.pair_class;
  left_mask = when (is_different e.pair_class && e.left.exists) RowStatus.different s.left_mask;
  right_mask = when (is_different e.pair_class && e.right.exists) RowStatus.different s.right_mask;
}

unfoldable pub enter_comparison : NodeState → NodeState
enter_comparison s = record s { pending_children = suc s.pending_children }

unfoldable pub enter_settled : EntryPair → NodeState → NodeState
enter_settled e s = record s {
  different = s.different || negate (is_same e.pair_class);
  left_mask =
      if is_orphan e.pair_class
      then with_status RowStatus.orphan s.left_mask
      else when e.left.exists e.left_status s.left_mask;
  right_mask =
      if is_orphan e.pair_class
      then with_status RowStatus.orphan s.right_mask
      else when e.right.exists e.right_status s.right_mask;
}

-- The body of the loop over the entries.
unfoldable pub enter : Bool → EntryPair → NodeState → NodeState
enter check_content e s =
    if e.recurse
    then enter_folder e (with_bytes e s)
    else if hash_pending check_content e
    then enter_comparison (with_bytes e s)
    else enter_settled e (with_bytes e s)

-- What comes back for two files: the rows were given another status in between, and keep it, or the
-- comparison failed or succeeded.
pub data FileResult : Type 0 where
  superseded : (left_status right_status : RowStatus) (left_class : PairClass) → FileResult
  compared : (succeeded equal : Bool) → FileResult

unfoldable pub result_status : Bool → Bool → RowStatus
result_status succeeded equal =
    if succeeded
    then (if equal then RowStatus.equal else RowStatus.different)
    else RowStatus.pending

unfoldable pub result_class : Bool → Bool → PairClass
result_class succeeded equal =
    if succeeded then (if equal then PairClass.same else PairClass.different) else PairClass.pending

unfoldable pub add_file : FileResult → NodeState → NodeState
add_file (superseded left_status right_status left_class) s = record s {
  different = s.different || negate (is_same left_class);
  left_mask = with_status left_status s.left_mask;
  right_mask = with_status right_status s.right_mask;
}
add_file (compared succeeded equal) s = record s {
  different = s.different || negate (is_same (result_class succeeded equal));
  pending_folders = s.pending_folders || negate succeeded;
  left_mask = with_status (result_status succeeded equal) s.left_mask;
  right_mask = with_status (result_status succeeded equal) s.right_mask;
}

unfoldable pub is_orphan_node : NodeState → Bool
is_orphan_node s = negate s.mismatched && (s.left_missing || s.right_missing)

unfoldable pub final_mask : NodeState → Option Bool → ℕ → ℕ
final_mask s item mask =
    let orphans = when (is_orphan_node s) RowStatus.orphan mask in
    if s.mismatched
    then for_folder RowStatus.different item orphans
    else if negate (is_orphan_node s) && negate s.different && negate s.pending_folders
    then for_item RowStatus.equal item orphans
    else orphans

-- `finishNode`, up to what the rows are given and what the parent is told.
unfoldable pub finish : NodeState → NodeState
finish s = record s {
  left_mask = final_mask s s.left_item s.left_mask;
  right_mask = final_mask s s.right_item s.right_mask;
}

unfoldable pub is_differing : NodeState → Bool
is_differing s = s.different || is_orphan_node s || s.mismatched

-- The status and class that the two rows of the folder are given; none if they show different things.
unfoldable pub verdict : NodeState → Option (RowStatus × PairClass)
verdict s =
    if s.mismatched
    then none
    else if is_orphan_node s
    then some (
      RowStatus.orphan,
      (if s.left_missing then PairClass.orphan_right else PairClass.orphan_left),
    )
    else if s.different
    then some (RowStatus.different, PairClass.different)
    else if s.pending_folders
    then some (RowStatus.pending, PairClass.pending)
    else some (RowStatus.equal, PairClass.same)

-- What the parent takes from a finished folder.
unfoldable pub add_folder_node : NodeState → NodeState → NodeState
add_folder_node child parent = record parent {
  different = parent.different || is_differing child;
  left_mask = bit_or parent.left_mask child.left_mask;
  right_mask = bit_or parent.right_mask child.right_mask;
  left_bytes = parent.left_bytes + child.left_bytes;
  right_bytes = parent.right_bytes + child.right_bytes;
}

-- A child of a folder reports: two files were compared, or a folder is finished.
pub data Report : Type 0 where
  file : FileResult → Report
  below : NodeState → Report

unfoldable pub add_report : Report → NodeState → NodeState
add_report (file r) s = add_file r s
add_report (below child) s = add_folder_node child s

-- `--pendingChildren`.
unfoldable pub report : Report → NodeState → NodeState
report r s = let t = add_report r s in record t { pending_children = t.pending_children - 1 }

-- The states in which a folder is finished, as its children report in an order.
unfoldable pub finishes : NodeState → List Report → List NodeState
finishes s [] = []
finishes s (r ∷ rs) =
    let t = report r s in
    let later = finishes t rs in if t.pending_children == 0 then finish t ∷ later else later

-- With the finish at the end of `populate`, if there is nothing to wait for.
unfoldable pub all_finishes : NodeState → List Report → List NodeState
all_finishes s rs =
    let later = finishes s rs in if s.pending_children == 0 then finish s ∷ later else later
