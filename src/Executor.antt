-- ===== src/Executor.antt =====
-- `LocalExecutor` of src/skill2workflow/executor.py: it walks a workflow's nodes, calls connectors,
-- and saves the run document after each change.
pub mod Policy
pub mod Session
pub mod Windows
pub mod Projection
pub mod Connector
pub mod Transition
pub mod Drive
pub mod NewRun
pub mod Api
pub mod Upkeep
pub mod Rules
pub mod Endings
pub mod Checks
pub mod Attempts
pub mod Outcome
pub mod Returns
pub mod Cancelling
pub mod Effort
pub mod History
pub mod Timeline
pub mod Progress
