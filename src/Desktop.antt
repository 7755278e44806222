-- ===== src/Desktop.antt =====
-- The desktop application's control of the daemon service: daemon/internal/desktop/controller.go.
pub mod Backoff
pub mod Controller
pub mod Lifecycle
mod Tests
