-- ===== src/Identity.antt =====
-- src/multiclass_identity.h and src/multiclass_identity.cpp: class ids, class masks, the ordered
-- list of a character's classes, the class text and the two-handed weapon conflict.
pub mod Mask
pub mod Membership
pub mod Order
pub mod Closed
pub mod Display
pub mod Hands
pub mod Format
pub mod Tests
