-- ===== src/System.antt =====
-- Driver and board together: what the one packs and the other makes of it.
pub mod StepTime
pub mod Sync
pub mod Connection
pub mod Wire
pub mod Round
pub mod Service
pub mod Start
pub mod Samples
pub mod Tests
