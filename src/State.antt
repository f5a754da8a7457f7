-- ===== src/State.antt =====
-- internal/state: the cache that the web UI reads.
pub mod Store
pub mod Problems
pub mod Listed
mod Tests
