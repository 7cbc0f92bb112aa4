-- ===== src/Lib.antt =====
-- Verification library of the order book engine OrderBook-rs.
--
-- The engine keeps two sides of price levels and matches incoming orders against the opposite side,
-- best price first. Around the match stand the self-trade prevention, a pre-trade risk layer with
-- counters for each account, a tracker of order states with a bounded memory, fee schedules and a
-- closed set of reject reasons. Each part is a module here; a call that changes a shared object returns
-- the new one, and concurrent maps are association lists. Calls run one after another: the submit gate
-- excludes the interleavings that matter to the sweep, and races between single atomic operations are
-- not modelled.
--
-- The parts, by file from the repository's root:
--   - src/orderbook/stp.rs is Stp: `check_stp_at_level`, the scan of one level, over the resting orders in
--     the order in which they are matched;
--   - src/orderbook/risk.rs is Risk: `check_limit_admission`, `check_modify_admission` and the hooks
--     `on_admission`, `on_fill`, `on_quantity_update` and `on_cancel`. Risk/Accounts is the invariant of
--     the counters, Risk/Gate what the checks guarantee, Risk/Coverage the orders that are tracked;
--   - src/orderbook/order_state.rs is OrderState: `transition`, the eviction, `purge_terminal_older_than`.
--     OrderState/Retention is the bound, OrderState/History the answers;
--   - src/orderbook/fees.rs is Fees; src/orderbook/clock.rs is Clock; src/orderbook/reject_reason.rs and
--     src/orderbook/error.rs are RejectReason and Error;
--   - src/orderbook/book.rs with private.rs and cache.rs beside it is Book: the state, the indices and the
--     level events;
--   - src/orderbook/modifications.rs is Orders, the quantities of an order by its kind, Submission, the
--     path of `add_order`, and Cancel, the cancel by id. Submission/Shape is `validate_order_shape`,
--     Submission/Add is `add_order_inner`, whose gates stand in `admit` and whose sweep and residual in
--     `sweep_and_rest`; Queries holds the best prices, the expiry and the reference price that it asks for.
--     The text of an error that names an order is cut to its constant part;
--   - src/orderbook/matching.rs is Matching. Budget holds `MatchMode` and `StopCondition`; Level is
--     `process_level_match` and the cancel of a resting maker; Walk is the loop of `match_order_inner` over
--     the levels, Submit its beginning, its end and its entry points; DryRun holds `peek_match` and
--     `fok_fillable_quantity`. Conserve, PostOnly and the children of DryRun are proofs. The rule of
--     Conserve/Rule carries a fact of the result and the budget through the loop, and Conserve/Outcome
--     carries it to the outcome of the match;
--   - src/orderbook/mass_cancel.rs is MassCancel; MassCancel/Effects is what its operations do;
--   - `update_order` of src/orderbook/modifications.rs is Modify, one function for each update, with
--     `check_modify_stp_self_cross`; Modify/Gates is what its checks do,
--     Modify/Outcomes and Modify/Atomic what comes of it, Modify/Effects its cancel. Layout is a fact of
--     the book that every operation keeps, its children and the Effects of Matching, Submission and
--     Operations carry it through;
--   - src/orderbook/repricing.rs is Repricing: `calculate_pegged_price`, of which Repricing/Pegged is what
--     it gives, and `calculate_trailing_stop_price`, with Repricing/Trailing. Repricing/Passes is the
--     re-pricing of all special orders of a book, `reprice_special_orders` of src/orderbook/book.rs, its
--     Effects and Idle what the passes do;
--   - src/orderbook/operations.rs is Operations, with `match_market_order` and its kin of
--     src/orderbook/book.rs;
--   - src/orderbook/sequencer is Sequencer: types.rs, journal.rs and in_memory_journal.rs are its root,
--     file_journal.rs is Segment, the bytes of one segment, and FileJournal, the directory; replay.rs is
--     Config and Replay. Runs is the relation of a book's runs, Recovery what a replay makes of them;
--   - src/wire is Wire: mod.rs and error.rs beside it are the kinds of message and the errors,
--     Wire/Framing is framing.rs, its Trips and Reading are proofs. A writer is a buffer that takes all
--     that it is given, and `usize` has 64 bits.
--
-- The crate `pricelevel` is not part of the repository. Its levels, match results and trades are the
-- parameter `PriceLevels`, and what the engine relies on is `PriceLevelLaws`: a level match accounts for
-- its quantity, trades at the price of its level, and leaves the level alone for a post-only taker; an
-- addition of a trade fails on underflow only; a level admits the order that it is given, and a cancel
-- leaves its price; the crate's own dry run agrees with its match. Tests/Fifo
-- is a venue of queues that has all of these, and Tests runs the engine on it.
--
-- Machine words: prices and notionals are `u128`, quantities `u64`; sums that the source saturates are
-- cut to the word, and additions that wrap are taken modulo. All loops are structural: the level walk
-- over the list of levels, the eviction over its queue, the replay over the entries. The scans of a
-- segment alone count rounds: as many as the segment has bytes, which is enough since an entry has at
-- least five, and the theorems on them state it.
--
-- The checksum and the JSON of a journal's entries come from crates and are the parameter `Codec`, with
-- `CodecLaws`: a checksum has 32 bits, and what is written is read back. Calls of the file system
-- succeed.
--
-- Not modelled: metrics and buffer pools; snapshots and their comparison, and the payloads
-- of the wire; statistics and implied volatility, which are floating point; network output.
pub mod Prelude
pub mod Types
pub mod Error
pub mod RejectReason
pub mod Clock
pub mod OrderState
pub mod Stp
pub mod Repricing
pub mod Risk
pub mod Fees
pub mod PriceLevel
pub mod Orders
pub mod Book
pub mod Matching
pub mod Cancel
pub mod Queries
pub mod Submission
mod Tests
pub mod Wire
pub mod MassCancel
pub mod Modify
pub mod Operations
pub mod Sequencer
pub mod Layout
