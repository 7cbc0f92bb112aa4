-- ===== src/Submission.antt =====
-- The submit path of src/orderbook/modifications.rs.
pub mod Shape
pub mod Add
pub mod Steps
pub mod Gate
pub mod Residual
pub mod Effects
