-- ===== src/Folder/Run/Levels.antt =====
-- The tree of a comparison, its run, and what the run is to come to
-- (crates/openbc-ui-qt/cpp/viewers/folder/folder_compare_viewer.h).
use mathlib.Core.List.{Perm}
use open_bc.Prelude.{
  Option, none, ℕ, ◌+◌, Bool, true, false, ◌&&◌, ◌||◌, negate, some, List, [], ◌∷◌, is_empty,
  if◌then◌else◌, ◌≡◌,
}
use open_bc.Folder.Status.{RowStatus, PairClass, is_same, is_different}
use open_bc.Folder.Entries.{SideInfo, EntryPair, mismatch}
use open_bc.Folder.Run.{
  NodeState, opened_node, hash_pending, file_bytes, enter, FileResult, Report, file, below,
  all_finishes,
}
use open_bc.Folder.Run.Order.{file_differs}

-- What is found in a pair of folders: whether the listing failed, the pairs in it, each with what comes
-- of it, and the order in which the reports of its children arrive.
mutual
  pub data Level : Type 0 where
    level : (failed : Bool) → Rows → (List Report → List Report) → Level

  pub data Rows : Type 0 where
    no_rows : Rows
    settles : EntryPair → Rows → Rows
    compares : EntryPair → FileResult → Rows → Rows
    opens : EntryPair → Level → Rows → Rows

unfoldable pub lacks_folder : SideInfo → Bool
lacks_folder s = if s.is_dir then is_empty s.path else true

-- The node of a pair of folders that is entered: `scheduleFolder`, then `populate`.
unfoldable pub child_node : EntryPair → Bool → NodeState
child_node e failed =
    opened_node (some (e.left.exists && e.left.is_dir)) (some (e.right.exists && e.right.is_dir))
      (lacks_folder e.left) (lacks_folder e.right) (mismatch e.left e.right) failed

unfoldable pub below_all : List NodeState → List Report → List Report
below_all [] rs = rs
below_all (s ∷ ss) rs = below s ∷ below_all ss rs

module _ (check_content : Bool) where
  -- The loop of `populate`.
  unfoldable pub populate : Rows → NodeState → NodeState
  populate no_rows s = s
  populate (settles e rows) s = populate rows (enter check_content e s)
  populate (compares e r rows) s = populate rows (enter check_content e s)
  populate (opens e l rows) s = populate rows (enter check_content e s)

  -- The states in which a folder is finished, and the reports of the children of one.
  unfoldable mutual
    pub run : (Bool → NodeState) → Level → List NodeState
    run start (level failed rows arrange) =
        all_finishes (populate rows (start failed)) (arrange (reports rows))

    pub reports : Rows → List Report
    reports no_rows = []
    reports (settles e rows) = reports rows
    reports (compares e r rows) = file r ∷ reports rows
    reports (opens e l rows) = below_all (run (child_node e) l) (reports rows)

  -- What comes of each pair is what the code does with it, and the order loses and adds no report.
  unfoldable mutual
    pub IsRun : Level → Type 0
    IsRun (level failed rows arrange) = ((rs : List Report) → Perm (arrange rs) rs) × AreRun rows

    pub AreRun : Rows → Type 0
    AreRun no_rows = Unit
    AreRun (settles e rows) =
        (e.recurse ≡ false) × (hash_pending check_content e ≡ false) × AreRun rows
    AreRun (compares e r rows) =
        (e.recurse ≡ false) × (hash_pending check_content e ≡ true) × AreRun rows
    AreRun (opens e l rows) = (e.recurse ≡ true) × IsRun l × AreRun rows

-- Whether there is a difference in a folder or below it.
unfoldable mutual
  pub level_differs : Level → Bool
  level_differs (level failed rows arrange) = failed || rows_differ rows

  pub rows_differ : Rows → Bool
  rows_differ no_rows = false
  rows_differ (settles e rows) = negate (is_same e.pair_class) || rows_differ rows
  rows_differ (compares e r rows) = file_differs r || rows_differ rows
  rows_differ (opens e l rows) =
      is_different e.pair_class
      || (level_differs l || mismatch e.left e.right || lacks_folder e.left || lacks_folder e.right)
      || rows_differ rows

-- The bytes of the files on a side, in a folder and below it.
module _ (side : EntryPair → SideInfo) where
  unfoldable mutual
    pub level_bytes : Level → ℕ
    level_bytes (level failed rows arrange) = rows_bytes rows

    pub rows_bytes : Rows → ℕ
    rows_bytes no_rows = 0
    rows_bytes (settles e rows) = file_bytes (side e) + rows_bytes rows
    rows_bytes (compares e r rows) = file_bytes (side e) + rows_bytes rows
    rows_bytes (opens e l rows) = file_bytes (side e) + level_bytes l + rows_bytes rows

-- The status and class that the two rows of a folder are to have, by whether they show the same kind of
-- thing, whether one is missing, and whether there is a difference in it.
unfoldable pub folder_verdict : Bool → Bool → Bool → Bool → Option (RowStatus × PairClass)
folder_verdict mismatched left_missing right_missing differs =
    if mismatched
    then none
    else if left_missing
    then some (RowStatus.orphan, PairClass.orphan_right)
    else if right_missing
    then some (RowStatus.orphan, PairClass.orphan_left)
    else if differs
    then some (RowStatus.different, PairClass.different)
    else some (RowStatus.equal, PairClass.same)
