-- ===== src/Connectors.antt =====
-- The acquisition of source records: the workers of engine/connectors.
pub mod Supervisor
mod Tests
