-- ===== src/Tests/Updates.antt =====
-- The properties of the updates of resting orders, at the test market.
use order_book_rs.Prelude.{◌≡◌, refl, none, [], ◌∷◌, ◌==◌, ◌&&◌, if◌then◌else◌}
use order_book_rs.Prelude.Words.{u64_max}
use order_book_rs.Prelude.Maps.{lookup}
use order_book_rs.Types.{Side, opposite}
use order_book_rs.Error.{StpMode}
use order_book_rs.Risk.{new, on_cancel}
use order_book_rs.Orders.{checked_total_quantity}
use order_book_rs.Stp.{is_enabled}
use order_book_rs.Book.{Book, get_cached_best_ask, emit_level_change, invalidate}
use order_book_rs.Matching.Budget.{
  limit_price, level_qty_cap, from_mode, is_done, consume, initial_match_quantity,
}
use order_book_rs.Matching.Level.{execute}
use order_book_rs.Matching.Walk.{round, beyond_limit}
use order_book_rs.Submission.Shape.{◌then_in◌}
use order_book_rs.Modify.{OrderUpdate, update_order}
use order_book_rs.Modify.Atomic.{IsAtomic, update_order-IsAtomic}
use order_book_rs.Modify.Effects.{gives_order, update_order-leaks}
use order_book_rs.Tests.Fifo.{fifo}
use order_book_rs.Tests.Market.{market, resting, level_at}

-- A bid at 98 that fills its level to the last unit, before the bid at 99.
abbrev crowded : Book fifo
crowded =
    let m = market StpMode.none in
    record m {
      bids = (98, level_at 98 (resting 5 9 Side.buy 98 u64_max ∷ [])) ∷ m.bids;
      order_locations = (5, (98, Side.buy)) ∷ m.order_locations;
    }

-- The bid at 99 moves to 98, where there is no room for it.
abbrev move : OrderUpdate
move = OrderUpdate.update_price 4 98

lost : lookup 4 (update_order fifo crowded move).1.order_locations ≡ none
unfolding update_order ◌then_in◌ checked_total_quantity on_cancel new is_enabled get_cached_best_ask
    opposite round beyond_limit limit_price level_qty_cap from_mode is_done execute consume
    initial_match_quantity emit_level_change invalidate
lost = refl

moved_example : IsAtomic fifo crowded move (update_order fifo crowded move)
moved_example = update_order-IsAtomic fifo crowded move

leak_example :
    let (r, b') = update_order fifo crowded (OrderUpdate.cancel 4) in
    (lookup 4 b'.order_locations
      ≡ (if gives_order fifo r && 4 == 4 then none else lookup 4 crowded.order_locations))
    × (b'.risk_state ≡ crowded.risk_state)
    × (b'.tracker ≡ crowded.tracker)
    × (b'.pegged_orders ≡ crowded.pegged_orders)
    × (b'.trailing_stops ≡ crowded.trailing_stops)
leak_example = update_order-leaks fifo crowded 4 4
