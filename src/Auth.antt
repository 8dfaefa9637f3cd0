-- ===== src/Auth.antt =====
-- The package hub/internal/auth: secrets and one-time tickets.
pub mod Token
pub mod Tickets
mod Tests
