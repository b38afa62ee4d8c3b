-- ===== src/Memory.antt =====
-- infrastructure/memory.py: the in-memory stores, one dictionary (or record of dictionaries) each.
-- A method is a function into `Exec` of the store that it writes.
pub mod Tasks
pub mod Events
pub mod Queue
pub mod Ledgers
pub mod Sessions
pub mod Workspaces
pub mod Publications
pub mod Approvals
pub mod Effects
pub mod Observations
pub mod UnitOfWork
