-- ===== src/Response.antt =====
-- engine/response: approval-gated response actions.
pub mod Models
pub mod Policy
pub mod Audit
pub mod Tables
pub mod Approvals
pub mod Decisions
pub mod Dispatcher
pub mod Delivery
pub mod RunStatus
pub mod Trace
pub mod Soundness
pub mod Chain
pub mod Payload
pub mod Matching
pub mod Queue
mod Tests
