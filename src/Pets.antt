-- ===== src/Pets.antt =====
-- src/multipet_spawn_observer.h and src/multipet_spawn_observer.cpp: the pets that spawn packets
-- announce, and the roster of the focused pet's companions.
pub mod Parse
pub mod RoundTrip
pub mod Roster
pub mod Window
pub mod Order
pub mod Reach
pub mod Report
pub mod Delete
pub mod Find
pub mod Tests
