-- ===== src/Host.antt =====
-- The package hub/internal/host: hosts that are reached over SSH.
pub mod Encoder
pub mod Identity
pub mod Outcome
pub mod Store
pub mod Trim
pub mod Vault
pub mod Trust
pub mod Registry
pub mod Connection
mod Tests
