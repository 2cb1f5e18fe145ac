-- ===== src/Diff.antt =====
-- Presentation of the rows of a text diff (crates/openbc-ui-qt/cpp/common/diff_algorithms.h).
pub mod Groups
pub mod Tests
