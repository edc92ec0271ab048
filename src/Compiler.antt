-- ===== src/Compiler.antt =====
-- `validate_workflow_structured` of src/skill2workflow/compiler.py: the reports on a workflow document.
pub mod Tables
pub mod Policies
pub mod Http
pub mod Nodes
pub mod Edges
pub mod Reach
pub mod Validate
pub mod Texted
pub mod Wired
pub mod Indexed
pub mod Validated
pub mod Runs
