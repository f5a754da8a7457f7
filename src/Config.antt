-- ===== src/Config.antt =====
-- internal/config: the configuration, its loading with the environment, its defaults and its checks.
pub mod Settings
pub mod Validate
pub mod Valid
pub mod Load
pub mod Overrides
mod Tests
