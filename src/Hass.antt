-- ===== src/Hass.antt =====
-- internal/hass: the Home Assistant documents that were sent, whose configs are whose, and the names.
pub mod Publish
pub mod Gate
pub mod Missed
pub mod Reopened
pub mod Forgotten
pub mod Ownership
pub mod Owned
pub mod Names
pub mod Tokens
mod Tests
