-- ===== src/Retry.antt =====
-- The work that src/hook_manager.cpp defers and tries again: the caster windows, the combat
-- abilities and the cache file, after the server's statistics and in a new zone.
pub mod State
pub mod Ensure
pub mod Pending
pub mod Notify
pub mod Bounded
pub mod Live
pub mod Cached
mod Tests
