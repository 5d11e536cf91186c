-- ===== src/Triage.antt =====
-- What happens to an alert before and after the language model: engine/prefilter and engine/ai.
pub mod Prefilter
pub mod Validator
mod Tests
