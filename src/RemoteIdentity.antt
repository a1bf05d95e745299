-- ===== src/RemoteIdentity.antt =====
-- src/remote_multiclass_identity.h and src/remote_multiclass_identity.cpp: the remote identity
-- payload, and the store of other characters' class masks.
pub mod Parse
pub mod Counts
pub mod RoundTrip
pub mod Locality
pub mod Store
pub mod Lookup
pub mod Keys
pub mod Tests
