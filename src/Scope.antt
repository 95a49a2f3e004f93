-- ===== src/Scope.antt =====
-- runtime/development_scope.py: the journal of launch reservations.
pub mod Contract
pub mod Journal
pub mod State
pub mod Guards
pub mod Operations
pub mod Chain
pub mod Invariant
pub mod Reserved
pub mod Moves
pub mod Soundness
pub mod Commands
pub mod Guarantees
pub mod Lasting
pub mod Finality
pub mod Crash
