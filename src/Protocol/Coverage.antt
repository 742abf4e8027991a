-- ===== src/Protocol/Coverage.antt =====
-- `coverage`: whether a case exercises the premise of a coverage rule.
pub mod Scene
pub mod Wire
pub mod Order
pub mod Rules
pub mod Exclusive
