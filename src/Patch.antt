-- ===== src/Patch.antt =====
-- The patches of the client's code in src/hook_manager.cpp: relative jumps and calls, the length of
-- the instructions that a jump overwrites, and the detours and patches that are put in and taken
-- out again.
pub mod Jump
pub mod Resolve
pub mod Decode
pub mod Length
pub mod Memory
pub mod Detour
pub mod Placed
pub mod Install
pub mod Removed
pub mod Failed
pub mod Sites
pub mod Undo
mod Tests
