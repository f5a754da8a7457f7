-- ===== src/Mdns.antt =====
-- internal/discovery/mdns.go: the multicast-DNS browser's wire format and its collector.
pub mod Name
pub mod NameTotal
pub mod Collector
pub mod Known
pub mod Browse
mod Tests
