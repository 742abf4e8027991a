-- ===== src/Gate.antt =====
-- The composite action that runs the gate, scripts/actions-gate.py.
pub mod Status
pub mod Step
pub mod Names
pub mod Comment
pub mod Verdict
pub mod Agreement
pub mod Fence
mod Tests
pub mod Post
pub mod Sent
