-- ===== src/Folder/Run/Marks.antt =====
-- How the rows of a finished folder are marked
-- (crates/openbc-ui-qt/cpp/viewers/folder/folder_compare_viewer.h).
use mathlib.Core.Bool.{false≢true}
use open_bc.Prelude.{
  Bool, true, false, ◌&&◌, ◌||◌, negate, none, some, if◌then◌else◌, ◌≡◌, refl, ◌∙◌,
}
use open_bc.Folder.Status.{RowStatus, PairClass}
use open_bc.Folder.Run.{NodeState, is_orphan_node, verdict}
use open_bc.Folder.Run.Order.{Keeps}
use open_bc.Folder.Run.Levels.{folder_verdict}

verdict_cases :
    (mm lm rm d p : Bool)
    → (p ≡ true → d ≡ true)
    → (if mm
        then none
        else if negate mm && (lm || rm)
        then some (RowStatus.orphan, (if lm then PairClass.orphan_right else PairClass.orphan_left))
        else if d
        then some (RowStatus.different, PairClass.different)
        else if p
        then some (RowStatus.pending, PairClass.pending)
        else some (RowStatus.equal, PairClass.same))
      ≡ folder_verdict mm lm rm d
unfolding folder_verdict
verdict_cases true lm rm d p h = refl
verdict_cases false true rm d p h = refl
verdict_cases false false true d p h = refl
verdict_cases false false false true p h = refl
verdict_cases false false false false true h = absurd (false≢true (h refl))
verdict_cases false false false false false h = refl

-- The rows of a folder are marked by its flags and its difference, and never as pending.
pub verdict_of :
    (s : NodeState) (lm rm mm d : Bool)
    → s.left_missing ≡ lm
    → s.right_missing ≡ rm
    → s.mismatched ≡ mm
    → s.different ≡ d
    → Keeps s
    → verdict s ≡ folder_verdict mm lm rm d
unfolding verdict folder_verdict is_orphan_node Keeps
verdict_of s lm rm mm d a b c e k =
    verdict_cases s.mismatched s.left_missing s.right_missing s.different s.pending_folders k
    ∙ (λ i. folder_verdict (c i) (a i) (b i) (e i))
