-- ===== src/Protocol.antt =====
-- The wire protocol checker, scripts/check-external-sut-vectors.py.
pub mod Message
pub mod Vocabulary
pub mod Shape
pub mod State
pub mod Premise
pub mod Local
pub mod Exchange
pub mod Receive
pub mod Cases
pub mod Invariant
pub mod Latch
pub mod Sequence
pub mod Growth
pub mod Promise
mod Tests
mod ExpansionTests
mod Vectors
pub mod Expand
pub mod Emissions
pub mod Coverage
pub mod Framing
pub mod Validate
pub mod Valid
