-- ===== src/Section.antt =====
-- The recovery of one bad section: src/recovery/section_recover.rs.
pub mod State
pub mod Read
pub mod Handlers
pub mod Specialists
pub mod Chain
pub mod Exact
