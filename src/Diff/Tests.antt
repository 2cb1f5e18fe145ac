-- ===== src/Diff/Tests.antt =====
-- Groups of a concrete comparison (crates/openbc-ui-qt/cpp/common/diff_algorithms.h).
use open_bc.Prelude.{Bool, true, false, List, [], ◌∷◌, codes, ◌≡◌}
use open_bc.Diff.Groups.{TextDiffLine, group_diff_rows}
use open_bc.Diff.Groups.Cover.{kind_at, row_kind, group_diff_rows_cover}
use open_bc.Diff.Groups.Maximal.{Separated, group_diff_rows-Separated}

row : Bool → Bool → TextDiffLine
row changed whitespace_only = record {
  left = codes "a";
  right = codes "b";
  left_number = 1;
  right_number = 1;
  changed = changed;
  whitespace_only = whitespace_only;
}

rows : List TextDiffLine
rows = row true false ∷ row true true ∷ row false false ∷ row true false ∷ []

group_diff_rows_cover_example : kind_at (group_diff_rows rows) 3 ≡ row_kind rows 3
group_diff_rows_cover_example = group_diff_rows_cover rows 3

group_diff_rows-Separated_example : Separated (group_diff_rows rows)
group_diff_rows-Separated_example = group_diff_rows-Separated rows
