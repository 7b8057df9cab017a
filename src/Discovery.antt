-- ===== src/Discovery.antt =====
-- The discovery of endpoints from the traffic of a page: pkg/discovery.
pub mod Types
pub mod Schema
pub mod Classifier
pub mod Signals
pub mod Protocol
pub mod Parts
pub mod Observe
pub mod Analyze
pub mod View
mod Tests
