-- ===== src/Evcc.antt =====
-- internal/evcc/evcc.go: the pure half of the evcc profile.
pub mod Profile
pub mod Mode
pub mod Diff
pub mod Parse
mod Tests
