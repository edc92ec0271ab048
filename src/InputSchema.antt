-- ===== src/InputSchema.antt =====
-- src/skill2workflow/input_schema.py: the contract that a workflow states for the values that trigger
-- it, and the check of a value.
pub mod Contract
pub mod Value
pub mod Conforms
pub mod Keywords
pub mod Sound
pub mod Complete
pub mod Trigger
