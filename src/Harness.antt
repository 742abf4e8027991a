-- ===== src/Harness.antt =====
-- The gate performance harness, experiments/gate-performance/harness.
pub mod Trial
pub mod Proof
mod Tests
mod BlockTests
pub mod Hashes
pub mod Guard
pub mod Collector
pub mod Teardown
pub mod Sweep
pub mod Timeline
pub mod Analysis
pub mod Order
pub mod Accounting
pub mod Original
