-- ===== src/Files.antt =====
-- Which viewer a file belongs to (crates/openbc-ui-qt/cpp/common/file_kinds.h,
-- compare_extensions.h, archive_support.h, content_sniff.h).
pub mod Archives
pub mod Disk
pub mod Kinds
pub mod SessionKind
pub mod Sniff
pub mod Tests
