-- ===== src/Bridge.antt =====
-- bridge.go: the presentations that the loopback bridge serves.
pub mod Hub
pub mod Dedup
pub mod Feed
