-- ===== src/Publisher.antt =====
-- `Publisher` of runtime/integration.py: how an approved candidate becomes a merge on the server.
pub mod Remote
pub mod Inspect
pub mod Server
pub mod Publish
pub mod Returns
pub mod Checks
pub mod Protection
pub mod Traces
pub mod Quiet
pub mod Merge
pub mod Safety
