-- ===== src/Combat.antt =====
-- src/multiclass_combat_ability.h and src/multiclass_combat_ability.cpp: the classes and the
-- array that stand in for the client's combat abilities.
pub mod Ability
pub mod Classes
pub mod Distinct
pub mod Tests
