-- ===== src/Models.antt =====
-- application/models.py: the records that services and stores exchange. `new_…` and `check_…` are
-- the constructors with their `__post_init__`; the tests of a value's class are left to the types.
pub mod Queue
pub mod Runner
pub mod Workspace
pub mod Identity
pub mod Publication
pub mod Review
pub mod Effect
pub mod Checks
