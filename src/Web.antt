-- ===== src/Web.antt =====
-- internal/web/web.go: the dashboard's side of the coordinator. go-bridgeui, which serves it, is
-- outside; of its types stand here the fields that this bridge fills.
pub mod Tiles
pub mod Dashboard
pub mod Offered
pub mod Running
mod Tests
