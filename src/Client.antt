-- ===== src/Client.antt =====
-- The client's structures that src/hook_manager.cpp reads and writes: the class of the local player
-- in its three places, and the answers of the client's functions for another class.
pub mod Read
pub mod Override
pub mod Originals
pub mod Restored
pub mod Best
pub mod Compare
pub mod Asked
pub mod Largest
mod Tests
