-- ===== src/Updates.antt =====
-- The decisions behind the Home tab's release notices
-- (crates/openbc-ui-qt/cpp/home/release_logic.h).
pub mod Version
pub mod Tests
pub mod Plan
