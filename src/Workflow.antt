-- ===== src/Workflow.antt =====
-- runtime/workflow.py: one accepted task from its first step to its publication. The engine delivers
-- events one at a time; between them the workflow waits at one of its positions.
pub mod State
pub mod Signals
pub mod Requests
pub mod Steps
pub mod Run
pub mod Unpublished
pub mod Approval
pub mod Published
pub mod Waiting
pub mod Attempts
pub mod Counted
