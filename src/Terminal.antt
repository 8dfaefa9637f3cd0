-- ===== src/Terminal.antt =====
-- The package hub/internal/terminal: buffers, attachments and the manager of attachments.
pub mod Staging
pub mod Queue
pub mod Options
pub mod Effect
pub mod Attachment
pub mod Manager
mod Tests
