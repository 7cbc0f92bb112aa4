-- ===== src/Tests.antt =====
-- Tests: a venue of first-in-first-out levels, and every property at a concrete input.
mod Fifo
mod Market
mod Matches
mod Codes
mod Accounts
mod Lifecycle
mod Depth
mod Frames
mod MassCancels
mod Submissions
mod Updates
mod Recoveries
mod Journals
mod Pegs
mod Passes
