-- ===== src/Services.antt =====
-- application/: the services that work on the stores of one unit of work.
pub mod Ports
pub mod Intake
pub mod Fuse
pub mod Transitions
pub mod Sessions
pub mod Workers
pub mod Allocation
pub mod Publishing
pub mod Issues
pub mod Ingestion
