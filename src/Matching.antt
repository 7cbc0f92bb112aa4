-- ===== src/Matching.antt =====
-- src/orderbook/matching.rs: the matching engine over the price levels of the opposite side.
pub mod Budget
pub mod Level
pub mod Walk
pub mod Submit
pub mod Conserve
pub mod PostOnly
pub mod Effects
pub mod DryRun
