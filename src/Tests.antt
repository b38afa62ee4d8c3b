-- ===== src/Tests.antt =====
-- Runs of the model on small inputs.
mod Data
mod Tasks
mod Queues
mod Ledgers
mod Publishing
mod Services
mod Gates
mod Issues
mod Adapters
