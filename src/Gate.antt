-- ===== src/Gate.antt =====
-- runtime/integration.py and runtime/review.py: what a candidate needs before it is published, and
-- what follows from a review that does not approve it.
pub mod Require
pub mod Recovery
pub mod Guards
pub mod Passed
pub mod Approval
pub mod Verdict
pub mod Terminal
