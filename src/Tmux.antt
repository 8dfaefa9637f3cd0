-- ===== src/Tmux.antt =====
-- The package hub/internal/tmux: the commands that the hub sends to tmux, and what it reads back.
pub mod Commands
pub mod Env
pub mod Panes
pub mod Process
pub mod Sessions
pub mod Client
pub mod Starting
mod Tests
