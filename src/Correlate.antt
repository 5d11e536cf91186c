-- ===== src/Correlate.antt =====
-- engine/correlate: the order of a chain's tactics.
pub mod Chains
pub mod Timelines
pub mod Alerts
pub mod Entities
pub mod ClusterIds
pub mod Engine
pub mod Risk
mod Tests
