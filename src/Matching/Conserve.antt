-- ===== src/Matching/Conserve.antt =====
-- What a match keeps account of (src/orderbook/matching.rs).
pub mod Rule
pub mod Results
pub mod Outcome
pub mod Quantity
pub mod Price
pub mod Notional
