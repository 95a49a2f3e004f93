-- ===== src/Development.antt =====
-- FiniteDevelopment and FiniteAssessment of runtime/development_workflow.py.
pub mod State
pub mod Steps
pub mod Run
pub mod Keys
pub mod Keyed
pub mod Unique
pub mod Works
pub mod Complete
pub mod Assessing
