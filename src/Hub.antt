-- ===== src/Hub.antt =====
-- src/state.rs, the actor: the one thread that owns the clients, the terminals and what is sent to
-- whom. Each command of its loop is a function from the state to the state.
pub mod Types
pub mod Queue
pub mod Sizes
pub mod State
pub mod Viewers
pub mod Spawn
pub mod Process
pub mod Script
pub mod Saved
pub mod Opened
pub mod Step
mod Tests
