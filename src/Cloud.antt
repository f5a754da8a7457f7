-- ===== src/Cloud.antt =====
-- internal/zendure/cloud: the login, the routing of the cloud's messages, and the session's life.
pub mod Base64
pub mod Login
pub mod Token
pub mod Session
pub mod Routing
pub mod Lifetime
pub mod Observed
mod Tests
