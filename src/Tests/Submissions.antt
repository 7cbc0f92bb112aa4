-- ===== src/Tests/Submissions.antt =====
-- The properties of the submit path, at the test market.
use order_book_rs.Prelude.{ℕ, ◌+◌, ◌≡◌, ◌⊎◌, refl, true, false, Option, some, [], ◌∷◌, arith}
use order_book_rs.Prelude.Maps.{lookup}
use order_book_rs.Prelude.Result.{ok, is_ok}
use order_book_rs.Types.{Side, opposite, Order}
use order_book_rs.Error.{StpMode}
use order_book_rs.Orders.{total_quantity, checked_total_quantity, set_total_remaining}
use order_book_rs.Risk.{new}
use order_book_rs.Stp.{is_enabled}
use order_book_rs.Book.{Book, get_cached_best_ask, emit_level_change}
use order_book_rs.Matching.Budget.{
  limit_price, level_qty_cap, from_mode, is_done, consume, initial_match_quantity,
}
use order_book_rs.Matching.Level.{execute}
use order_book_rs.Matching.Walk.{round, beyond_limit}
use order_book_rs.Submission.Shape.{◌then_in◌}
use order_book_rs.Submission.Add.{admit, add_order_inner, add_order_with_result}
use order_book_rs.Submission.Gate.{admit-IsUntouched, add_order_inner-duplicate}
use order_book_rs.Submission.Residual.{traded, add_order_with_result-accounts}
use order_book_rs.Tests.Fifo.{Report, fifo, fifo-laws}
use order_book_rs.Tests.Market.{market, resting, fill}

abbrev quiet : Book fifo
quiet = market StpMode.none

-- A buy of 10 at 100 takes 8 and rests 2.
abbrev buy : Order
buy = resting 60 9 Side.buy 100 10

abbrev rested : Order
rested = resting 60 9 Side.buy 100 2

abbrev report : Option (ℕ × Report)
report = some (
  1,
  record {
    fills = fill 1 5 100 ∷ fill 2 3 100 ∷ [];
    filled = 1 ∷ 2 ∷ [];
    remaining = 2;
    rejected = false;
  },
)

buy-total : checked_total_quantity buy.kind ≡ some 10
unfolding checked_total_quantity
buy-total = refl

buy-ok : (add_order_with_result fifo quiet buy).0 ≡ ok (rested, report)
unfolding add_order_with_result ◌then_in◌ checked_total_quantity new is_enabled get_cached_best_ask
    opposite round beyond_limit limit_price level_qty_cap from_mode is_done execute consume
    initial_match_quantity set_total_remaining emit_level_change
buy-ok = refl

accounted_example :
    (traded fifo report ≡ 10)
    ⊎ ((traded fifo report + total_quantity rested.kind ≡ 10)
        × (lookup 60 (add_order_with_result fifo quiet buy).1.order_locations
            ≡ some (100, Side.buy)))
accounted_example =
    add_order_with_result-accounts fifo fifo-laws buy 10 buy-total (omega arith) quiet rested report
      buy-ok

untouched_example :
    let b' = (admit fifo quiet buy).1 in
    (b'.bids ≡ quiet.bids)
    × (b'.asks ≡ quiet.asks)
    × (b'.order_locations ≡ quiet.order_locations)
    × (b'.user_orders ≡ quiet.user_orders)
    × (b'.risk_state.orders ≡ quiet.risk_state.orders)
    × (b'.risk_state.counters ≡ quiet.risk_state.counters)
untouched_example = admit-IsUntouched fifo quiet buy

-- The id of an order that rests.
abbrev again : Order
again = resting 3 9 Side.buy 100 10

duplicate_example :
    let (r, b') = add_order_inner fifo quiet again true in
    (is_ok r ≡ false)
    × (b'.bids ≡ quiet.bids)
    × (b'.asks ≡ quiet.asks)
    × (b'.order_locations ≡ quiet.order_locations)
    × (b'.user_orders ≡ quiet.user_orders)
    × (b'.risk_state.orders ≡ quiet.risk_state.orders)
    × (b'.risk_state.counters ≡ quiet.risk_state.counters)
duplicate_example = add_order_inner-duplicate fifo quiet again true refl
