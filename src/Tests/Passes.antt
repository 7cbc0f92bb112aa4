-- ===== src/Tests/Passes.antt =====
-- The properties of the passes that re-price special orders, at a book of the test venue.
use order_book_rs.Prelude.{ℕ, ◌≤◌, ◌↔◌, All, ◌+◌, ◌/◌, ◌≡◌, refl, true, some, List, [], ◌∷◌}
use order_book_rs.Prelude.Int.{negsuc}
use order_book_rs.Prelude.Maps.{lookup}
use order_book_rs.Types.{Side, Order, OrderKind, PegReferenceType, opposite}
use order_book_rs.Error.{StpMode}
use order_book_rs.Risk.{new, on_cancel}
use order_book_rs.Orders.{checked_total_quantity}
use order_book_rs.Stp.{is_enabled}
use order_book_rs.Book.{
  Book, get_cached_best_ask, get_cached_best_bid, update_best_bid, emit_level_change, invalidate,
}
use order_book_rs.Matching.Budget.{limit_price, initial_match_quantity}
use order_book_rs.Matching.Walk.{round, beyond_limit}
use order_book_rs.Submission.Shape.{◌then_in◌}
use order_book_rs.Submission.Steps.{IsUntouched}
use order_book_rs.Repricing.Passes.{market_of, reprice_pegged_collecting, reprice_special_orders}
use order_book_rs.Repricing.Passes.Idle.{attempts, IsInPlace, reprice_pegged-idle}
use order_book_rs.Repricing.Passes.Effects.{reprice_special_orders-halts}
use order_book_rs.Tests.Fifo.{fifo}
use order_book_rs.Tests.Market.{market, resting, level_at}

-- A buy at 97 that is pegged two below the best ask, which is 100.
abbrev pegged : Order
pegged = record (resting 5 9 Side.buy 97 6) {
  kind = OrderKind.pegged 6 PegReferenceType.best_ask (negsuc 1);
}

abbrev pegs : Book fifo
pegs =
    let m = market StpMode.none in
    record m {
      bids = (97, level_at 97 (pegged ∷ [])) ∷ m.bids;
      order_locations = (5, (97, Side.buy)) ∷ m.order_locations;
      user_orders = (9, 5 ∷ []) ∷ m.user_orders;
      pegged_orders = 5 ∷ [];
    }

abbrev mean : ℕ → ℕ → ℕ
mean a b = (a + b) / 2

abbrev as_given : List ℕ → List ℕ
as_given ids = ids

-- The peg is moved to 98.
moved :
    let (r, b') = reprice_special_orders fifo as_given mean pegs in
    (r ≡ record { pegged_orders_repriced = 1; trailing_stops_repriced = 0; failed_orders = [] })
    × (lookup 5 b'.order_locations ≡ some (98, Side.buy))
unfolding reprice_special_orders get_cached_best_ask get_cached_best_bid update_best_bid ◌then_in◌
    checked_total_quantity is_enabled new emit_level_change on_cancel invalidate opposite round
    beyond_limit limit_price initial_match_quantity
moved = (refl, refl)

idle_example :
    let (m, b') = market_of fifo as_given mean pegs in
    let n = attempts (reprice_pegged_collecting fifo as_given mean [] pegs).0 in
    (n ≤ 1) × ((n ≡ 0) ↔ All (IsInPlace fifo m b') (5 ∷ []))
idle_example = reprice_pegged-idle fifo as_given mean pegs

halted_example :
    let (r, b') = reprice_special_orders fifo as_given mean (record pegs { kill_switch = true }) in
    (r.pegged_orders_repriced ≡ 0)
    × (r.trailing_stops_repriced ≡ 0)
    × IsUntouched fifo (record pegs { kill_switch = true }) b'
halted_example =
    reprice_special_orders-halts fifo as_given mean (record pegs { kill_switch = true }) refl
