-- ===== src/Mapfile.antt =====
-- The ddrescue-compatible mapfile (src/recovery/mapfile.rs).
pub mod Status
pub mod Entry
pub mod Runs
pub mod Tally
pub mod State
pub mod Render
pub mod Persist
pub mod Promote
pub mod Record
pub mod Splice
pub mod Fill
pub mod Load
pub mod Identity
