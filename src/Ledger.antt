-- ===== src/Ledger.antt =====
-- runtime/failure_ledger.py: the permanent record of test runs, by the commit that they ran on.
pub mod Cases
pub mod Records
pub mod Operations
pub mod Classify
pub mod Observation
pub mod History
pub mod Growth
pub mod Permanent
pub mod Limits
pub mod Bounds
pub mod Host
