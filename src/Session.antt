-- ===== src/Session.antt =====
-- The package hub/internal/session: sessions, their names and panes, and the service over a backend.
pub mod Model
pub mod Validation
pub mod Pane
pub mod Service
mod Tests
