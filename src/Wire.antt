-- ===== src/Wire.antt =====
-- Payload bytes as the parsers read them. A payload is memory behind a pointer, a byte at each
-- offset, and a length that its caller states.
pub mod Bytes
pub mod Layout
pub mod Names
pub mod Fold
