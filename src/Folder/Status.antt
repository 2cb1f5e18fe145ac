-- ===== src/Folder/Status.antt =====
-- The statuses of rows and of pairs (crates/openbc-ui-qt/cpp/style/qt_style.h).
use Prim.Native.Nat.{bit_or}
use open_bc.Prelude.{ℕ, ◌^◌, Bool, true, false}

pub data RowStatus : Type 0 where
  pending equal newer older different orphan : RowStatus

pub data PairClass : Type 0 where
  pending same orphan_left orphan_right left_newer right_newer different : PairClass

-- `static_cast<int>(status)`.
unfoldable pub status_number : RowStatus → ℕ
status_number RowStatus.pending = 0
status_number RowStatus.equal = 1
status_number RowStatus.newer = 2
status_number RowStatus.older = 3
status_number RowStatus.different = 4
status_number RowStatus.orphan = 5

unfoldable pub status_bit : RowStatus → ℕ
status_bit status = 2 ^ status_number status

-- `mask |= statusBit(status)`.
unfoldable pub with_status : RowStatus → ℕ → ℕ
with_status status mask = bit_or mask (status_bit status)

unfoldable pub is_same : PairClass → Bool
is_same PairClass.same = true
is_same _ = false

unfoldable pub is_different : PairClass → Bool
is_different PairClass.different = true
is_different _ = false

unfoldable pub is_orphan : PairClass → Bool
is_orphan PairClass.orphan_left = true
is_orphan PairClass.orphan_right = true
is_orphan _ = false

-- What the gutter between the trees shows for a pair.
pub status_for_pair : PairClass → RowStatus
status_for_pair PairClass.same = RowStatus.equal
status_for_pair PairClass.orphan_left = RowStatus.orphan
status_for_pair PairClass.orphan_right = RowStatus.orphan
status_for_pair PairClass.left_newer = RowStatus.newer
status_for_pair PairClass.right_newer = RowStatus.newer
status_for_pair PairClass.different = RowStatus.different
status_for_pair PairClass.pending = RowStatus.pending
