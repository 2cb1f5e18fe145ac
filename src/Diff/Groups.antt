-- ===== src/Diff/Groups.antt =====
-- `groupDiffRows`: the runs of changed rows that share one copy arrow
-- (crates/openbc-ui-qt/cpp/common/diff_algorithms.h).
pub mod Cover
pub mod Maximal
use open_bc.Prelude.{
  ℕ, suc, ◌+◌, ◌-◌, Bool, true, false, ◌&&◌, Option, some, none, List, [], ◌∷◌, Text, beq,
  if◌then◌else◌,
}

pub record TextDiffLine : Type 0 where
  pub left : Text
  pub right : Text
  pub left_number : ℕ
  pub right_number : ℕ
  pub changed : Bool
  pub whitespace_only : Bool

pub record DiffGroup : Type 0 where
  pub start : ℕ
  pub end : ℕ
  pub whitespace_only : Bool

-- The inner loop is running: where it started, and with which kind.
pub record Open : Type 0 where
  pub start : ℕ
  pub whitespace_only : Bool

unfoldable pub close : Open → ℕ → DiffGroup
close o i = record { start = o.start; end = i - 1; whitespace_only = o.whitespace_only }

-- The group that row `i` opens, in the outer loop.
unfoldable pub opened : ℕ → TextDiffLine → Option Open
opened i row =
    if row.changed then some (record { start = i; whitespace_only = row.whitespace_only }) else none

unfoldable pub belongs : Open → TextDiffLine → Bool
belongs o row = row.changed && beq row.whitespace_only o.whitespace_only

-- Both loops over the rows from index `i`, in one pass: `o` is the group that the inner loop has
-- open. A row that does not belong to it closes it, and is then looked at by the outer loop.
unfoldable pub walk : Option Open → ℕ → List TextDiffLine → List DiffGroup
unfolding belongs opened close
walk none i [] = []
walk none i (row ∷ rows) = walk (opened i row) (suc i) rows
walk (some o) i [] = close o i ∷ []
walk (some o) i (row ∷ rows) = elim (belongs o row) [
  | true ↦ walk (some o) (suc i) rows
  | false ↦ close o i ∷ walk (opened i row) (suc i) rows
]

pub group_diff_rows : List TextDiffLine → List DiffGroup
group_diff_rows rows = walk none 0 rows
