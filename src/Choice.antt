-- ===== src/Choice.antt =====
-- The choice of the model: runtime/development_model.py reads it, scripts/model_choice.py changes it.
pub mod Selection
pub mod Apply
pub mod Only
