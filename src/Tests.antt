-- ===== src/Tests.antt =====
-- Concrete inputs: what the modelled code does on them, and the theorems at inputs that meet their
-- hypotheses.
mod Scope
mod Gate
mod Workflow
mod Task
mod Ledger
mod Publisher
mod Development
mod Choice
mod Watch
mod Decisions
mod Verdict
