-- ===== src/Decisions.antt =====
-- runtime/decision_guard.py: what a change of the decision log keeps.
pub mod Retained
pub mod Order
