-- ===== src/Cache.antt =====
-- src/multiclass_cache.cpp: the text of the cache file that keeps the classes of characters.
pub mod Hex
pub mod Lines
pub mod Value
pub mod Store
pub mod Text
pub mod RoundTrip
pub mod Lookup
pub mod Stored
pub mod Names
pub mod Folded
pub mod Tests
