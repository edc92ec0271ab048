-- ===== src/Store.antt =====
-- `SqliteRunStore` of src/skill2workflow/storage.py: the run documents, who executes them, and the
-- requests to cancel them. Each method is one transaction on the tables of `Store.Db`.
pub mod Db
pub mod Save
pub mod Cancel
pub mod Recover
pub mod Locks
pub mod Fencing
pub mod Sweep
pub mod Keyed
pub mod Effects
pub mod Deadlines
pub mod Passes
pub mod Lifecycle
pub mod Requests
