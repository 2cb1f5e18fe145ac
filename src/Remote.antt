-- ===== src/Remote.antt =====
-- Saved connections and where they are kept (crates/openbc-ui-qt/cpp/remote).
pub mod Profile
pub mod Json
pub mod Secrets
pub mod Codec
pub mod Tree
pub mod Store
pub mod Tests
