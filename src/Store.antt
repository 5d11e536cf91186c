-- ===== src/Store.antt =====
-- The durable store: the tables of engine/store/migrations.py, the ledger and the work queue.
pub mod Records
pub mod WorkQueue
pub mod Ledger
pub mod Cursors
pub mod Investigations
mod Tests
