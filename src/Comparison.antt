-- ===== src/Comparison.antt =====
-- The control comparison, experiments/control-comparison/runner.
pub mod Timing
pub mod Sweep
pub mod Coverage
pub mod Budget
pub mod Trace
pub mod Replay
pub mod Reduce
pub mod Complete
mod Tests
pub mod Candidates
pub mod Interleavings
pub mod Progress
pub mod Prefix
mod ProgressTests
