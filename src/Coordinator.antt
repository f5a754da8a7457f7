-- ===== src/Coordinator.antt =====
-- internal/coordinator: reports, commands and the retained topics of an old layout.
pub mod Battery
pub mod Commands
pub mod Migrate
pub mod Publish
pub mod Reconcile
pub mod Online
pub mod System
pub mod Web
mod Tests
