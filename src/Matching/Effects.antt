-- ===== src/Matching/Effects.antt =====
-- What a match does to the book and to the levels (src/orderbook/matching.rs): rules that carry a fact
-- of the book, and a fact of every level, through the walk.
pub mod Books
pub mod Levels
pub mod Sides
pub mod Locations
