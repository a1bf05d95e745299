-- ===== src/Skills.antt =====
-- src/multiclass_skill_visibility.cpp: which activated skills a character is shown.
pub mod Visibility
pub mod Masks
pub mod Tests
