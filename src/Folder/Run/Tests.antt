-- ===== src/Folder/Run/Tests.antt =====
-- A comparison of two folders with a file and a folder in them, whose reports arrive in reverse
-- (crates/openbc-ui-qt/cpp/viewers/folder/folder_compare_viewer.h).
use mathlib.Core.List.{reverse, reverse_perm}
use mathlib.Core.List.Perm
use open_bc.Prelude.{none, Bool, true, false, ◌||◌, [], ◌∷◌, codes, ◌≡◌, refl}
use open_bc.Folder.Status.{RowStatus, PairClass}
use open_bc.Folder.Entries.{SideInfo, EntryPair}
use open_bc.Folder.Run.{
  NodeState, compared, hash_pending, is_plain_file, is_differing, verdict, opened_node,
}
use open_bc.Folder.Run.Levels.{
  Level, level, no_rows, compares, opens, IsRun, level_differs, level_bytes, run, folder_verdict,
}
use open_bc.Folder.Run.Verdict.{run-verdict}

abbrev notes : SideInfo
notes = record {
  exists = true;
  is_dir = false;
  is_link = false;
  name = codes "n";
  path = codes "/a/n";
  ext = [];
  attrs = [];
  size = 7;
}

abbrev inner : SideInfo
inner = record {
  exists = true;
  is_dir = true;
  is_link = false;
  name = codes "d";
  path = codes "/a/d";
  ext = [];
  attrs = codes "D";
  size = 0;
}

abbrev pair_of : SideInfo → RowStatus → PairClass → Bool → EntryPair
pair_of s status pair_class recurse = record {
  left = s;
  right = s;
  left_status = status;
  right_status = status;
  pair_class = pair_class;
  recurse = recurse;
}

-- The inner folder holds the same file; the outer one two of equal contents.
abbrev scenario : Level
scenario =
    level false
      (compares (pair_of notes RowStatus.newer PairClass.left_newer false) (compared true true) (
        opens (pair_of inner RowStatus.pending PairClass.pending true)
          (level false
            (compares (pair_of notes RowStatus.equal PairClass.same false) (compared true true)
              no_rows)
            (λ rs. rs))
          no_rows))
      reverse

scenario-IsRun : IsRun true scenario
unfolding IsRun hash_pending is_plain_file
scenario-IsRun = (reverse_perm, (refl, refl, (refl, ((λ rs. Perm.refl rs), (refl, refl, tt)), tt)))

run-verdict_example :
    (s : NodeState) × (run true (opened_node none none false false false) scenario ≡ s ∷ [])
    × (is_differing s ≡ (level_differs scenario || false || false || false))
    × (verdict s ≡ folder_verdict false false false (level_differs scenario))
    × (s.left_bytes ≡ level_bytes (λ e. e.left) scenario)
    × (s.right_bytes ≡ level_bytes (λ e. e.right) scenario)
run-verdict_example = run-verdict true none none false false false scenario scenario-IsRun
