-- ===== src/Exif.antt =====
-- The reader of EXIF data (crates/openbc-ui-qt/cpp/viewers/picture/picture_exif.h). Every access to the
-- buffer is checked here, and one that lies outside of it ends the run.
pub mod Memory
pub mod Values
pub mod Fields
pub mod Directories
pub mod Files
