-- ===== src/Drop.antt =====
-- Drag and drop: what a drop on Home or on a compare tab does
-- (crates/openbc-ui-qt/cpp/common/drop_*.h and the drop block of cpp/app/main_window.h).
pub mod Types
pub mod Payload
pub mod Router
pub mod Window
pub mod Tests
