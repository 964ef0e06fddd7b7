-- ===== src/Web.antt =====
-- The web tools: src/web-tools. The caches of pages and of searches, and the gate of requests.
pub mod SnapshotCache
pub mod SearchCache
pub mod RequestGate
pub mod NetworkPolicy
pub mod Tests
