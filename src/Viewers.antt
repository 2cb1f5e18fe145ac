-- ===== src/Viewers.antt =====
-- The compare viewers a file can belong to (crates/openbc-ui-qt/cpp/common/viewer_kind.h).
use open_bc.Prelude.{ℕ, Bool, ◌==◌}

pub data ViewerKind : Type 0 where
  text picture model3d table media registry version hex : ViewerKind

-- The value of the enumerator, on which C++ compares.
viewer_ordinal : ViewerKind → ℕ
viewer_ordinal ViewerKind.text = 0
viewer_ordinal ViewerKind.picture = 1
viewer_ordinal ViewerKind.model3d = 2
viewer_ordinal ViewerKind.table = 3
viewer_ordinal ViewerKind.media = 4
viewer_ordinal ViewerKind.registry = 5
viewer_ordinal ViewerKind.version = 6
viewer_ordinal ViewerKind.hex = 7

unfoldable pub same_viewer : ViewerKind → ViewerKind → Bool
unfolding viewer_ordinal
same_viewer a b = viewer_ordinal a == viewer_ordinal b
