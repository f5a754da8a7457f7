-- ===== src/Process.antt =====
-- internal/process: a report becomes a list of points.
pub mod Segment
pub mod SegmentSafe
pub mod Points
pub mod Enum
pub mod Resolved
pub mod OwnersLaws
mod Tests
