-- ===== src/Domain.antt =====
-- The pure domain model (src/meta_loop/domain).
pub mod Enums
pub mod Artifacts
pub mod Task
pub mod Event
