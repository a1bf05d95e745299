-- ===== src/Spells.antt =====
-- src/spell_usability_discovery_policy.cpp with its headers, and src/spell_level_selection.cpp.
pub mod Policy
pub mod Level
pub mod Lowest
pub mod Tests
