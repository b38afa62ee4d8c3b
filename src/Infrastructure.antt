-- ===== src/Infrastructure.antt =====
-- infrastructure/: the adapters to GitHub and to Git, over what the other side answers.
pub mod CheckRuns
pub mod Patches
pub mod Candidates
pub mod Verifier
pub mod Publisher
pub mod Blobs
