-- ===== src/Folder.antt =====
-- Comparing folders (crates/openbc-ui-qt/cpp/viewers/folder).
pub mod Wildcard
pub mod Glob
pub mod Status
pub mod Entries
pub mod Run
pub mod Filter
pub mod Tests
