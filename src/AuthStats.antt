-- ===== src/AuthStats.antt =====
-- src/server_auth_stats_observer.h and src/server_auth_stats_observer.cpp: the server's
-- authoritative stats payload, and the globals that keep the last values.
pub mod Read
pub mod Parse
pub mod Words
pub mod Tracking
pub mod RoundTrip
pub mod Acceptance
pub mod Observe
pub mod State
pub mod Tests
