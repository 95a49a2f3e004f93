-- ===== src/Task.antt =====
-- runtime/task.py, runtime/revision.py and runtime/development_binding.py: what an accepted task is,
-- what a revision of it may change, and how long a review may take.
pub mod Budget
pub mod Validate
pub mod Activity
pub mod Revision
pub mod Bounds
pub mod Binding
