-- ===== src/Watch.antt =====
-- The watch beside the finite development: runtime/development_capacity.py keeps time for it,
-- runtime/obligation.py controls its schedule, runtime/private_workflow.py is one round of it.
pub mod Admission
pub mod Fits
pub mod Assessment
pub mod Chain
pub mod Control
pub mod Stopped
