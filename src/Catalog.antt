-- ===== src/Catalog.antt =====
-- internal/catalog: the property map.
pub mod Entry
pub mod Load
pub mod Index
mod Tests
