-- ===== src/Repricing/Passes.antt =====
-- The passes of src/orderbook/book.rs that re-price the special orders of a book. The text of a failure
-- is cut to the price that was tried and the error. The text of an id comes from the crate of the ids,
-- and the mean of two prices from the floating-point unit: both are parameters, a list in the order of
-- its texts and the mean cut to a whole number.
pub mod Effects
pub mod Idle
use order_book_rs.Prelude.{
  ℕ, zero, suc, ◌+◌, ◌≡◌, refl, Option, none, some, List, [], ◌∷◌, ◌++◌, ◌==◌, if◌then◌else◌,
}
use order_book_rs.Prelude.Result.{Result, ok, err}
use order_book_rs.Types.{Side, Order, OrderKind}
use order_book_rs.Error.{BookError}
use order_book_rs.PriceLevel.{PriceLevels}
use order_book_rs.Book.{Book, without}
use order_book_rs.Queries.{best_bid, best_ask, opposite_best, last_trade, get_order}
use order_book_rs.Modify.{OrderUpdate, update_order}
use order_book_rs.Repricing.{Market, calculate_pegged_price, calculate_trailing_stop_price}

-- A count of re-priced orders, and the failures so far.
pub record Tally : Type 0 where
  pub repriced : ℕ
  pub failed : List (ℕ × ℕ × BookError)

pub record RepricingResult : Type 0 where
  pub pegged_orders_repriced : ℕ
  pub trailing_stops_repriced : ℕ
  pub failed_orders : List (ℕ × ℕ × BookError)

-- `new_price != current_price`
abbrev pub moved_from : ℕ → Option ℕ → Option ℕ
moved_from current none = none
moved_from current (some price) = if price == current then none else some price

-- The price that a peg of a kind is to have, if it is another one.
unfoldable pub peg_move_as : Market → Option ℕ → Side → ℕ → OrderKind → Option ℕ
unfolding calculate_pegged_price
peg_move_as m tick side current (OrderKind.pegged quantity reference offset) =
    moved_from current (calculate_pegged_price reference offset side m tick)
peg_move_as m tick side current kind = none

unfoldable pub peg_move : Market → Option ℕ → Order → Option ℕ
unfolding peg_move_as
peg_move m tick o = peg_move_as m tick o.side o.price o.kind

-- The stop price that a trailing stop is to have at a market price.
unfoldable pub stop_move : Order → ℕ → ℕ → Option ℕ → Option ℕ
unfolding calculate_trailing_stop_price
stop_move o trail reference none = none
stop_move o trail reference (some market) =
    stop_of (calculate_trailing_stop_price o.side o.price trail reference market)
  where
    stop_of : Option (ℕ × ℕ) → Option ℕ
    stop_of none = none
    stop_of (some (stop, reference)) = some stop

module _ (P : PriceLevels) where
  -- The outcome of an update is counted or recorded.
  unfoldable pub settle : ℕ → ℕ → Tally → Result BookError (Option Order) × Book P → Tally × Book P
  settle id price t (ok o, b) = (record t { repriced = suc t.repriced }, b)
  settle id price t (err e, b) = (record t { failed = t.failed ++ (id, price, e) ∷ [] }, b)

  module _ (price_of : Book P → Order → Option ℕ × Book P) (unregister : ℕ → Book P → Book P) where
    unfoldable pub reprice_found : ℕ → Tally → Option ℕ × Book P → Tally × Book P
    unfolding update_order settle
    reprice_found id t (none, b) = (t, b)
    reprice_found id t (some price, b) =
        settle id price t (update_order P b (OrderUpdate.update_price id price))

    -- An order that is no longer there is unregistered.
    unfoldable pub reprice_one : ℕ → Tally × Book P → Tally × Book P
    unfolding get_order reprice_found
    reprice_one id (t, b) = elim (get_order P b id) [
      | none ↦ (t, unregister id b)
      | some o ↦ reprice_found id t (price_of b o)
    ]

    unfoldable pub reprice_each : List ℕ → Tally × Book P → Tally × Book P
    unfolding reprice_one
    reprice_each [] s = s
    reprice_each (id ∷ ids) s = reprice_each ids (reprice_one id s)

  unfoldable pub unregister_pegged_order : ℕ → Book P → Book P
  unregister_pegged_order id b = record b { pegged_orders = without id b.pegged_orders }

  unfoldable pub unregister_trailing_stop : ℕ → Book P → Book P
  unregister_trailing_stop id b = record b { trailing_stops = without id b.trailing_stops }

  -- The stop of a sell tracks the best bid, that of a buy the best ask.
  unfoldable pub stop_read : Order → OrderKind → Book P → Option ℕ × Book P
  unfolding opposite_best stop_move
  stop_read o (OrderKind.trailing_stop quantity trail reference) b =
      let (market, b') = opposite_best P o.side b in (stop_move o trail reference market, b')
  stop_read o kind b = (none, b)

  unfoldable pub stop_move_in : Book P → Order → Option ℕ × Book P
  unfolding stop_read
  stop_move_in b o = stop_read o o.kind b

  module _ (by_text : List ℕ → List ℕ) (mean : ℕ → ℕ → ℕ) where
    abbrev mid_price : Option ℕ → Option ℕ → Option ℕ
    mid_price (some bid) (some ask) = some (mean bid ask)
    mid_price bid ask = none

    -- The prices that the pegs of a pass refer to.
    unfoldable pub market_of : Book P → Market × Book P
    unfolding best_bid best_ask last_trade
    market_of b =
        let (bid, b₁) = best_bid P b in
        let (ask, b₂) = best_ask P b₁ in
        (
          record {
            best_bid = bid;
            best_ask = ask;
            mid_price = mid_price bid ask;
            last_trade = last_trade P b₂;
          },
          b₂,
        )

    unfoldable pub reprice_pegs : List ℕ → List (ℕ × ℕ × BookError) → Book P → Tally × Book P
    unfolding market_of peg_move reprice_each unregister_pegged_order
    reprice_pegs [] failures b = (record { repriced = 0; failed = failures }, b)
    reprice_pegs (id ∷ ids) failures b =
        let (m, b') = market_of b in
        reprice_each (λ b o. (peg_move m b.tick_size o, b)) unregister_pegged_order (id ∷ ids)
          (record { repriced = 0; failed = failures }, b')

    unfoldable pub reprice_pegged_collecting : List (ℕ × ℕ × BookError) → Book P → Tally × Book P
    unfolding reprice_pegs
    reprice_pegged_collecting failures b = reprice_pegs (by_text b.pegged_orders) failures b

    unfoldable pub reprice_trailing_collecting : List (ℕ × ℕ × BookError) → Book P → Tally × Book P
    unfolding stop_move_in reprice_each unregister_trailing_stop
    reprice_trailing_collecting failures b =
        reprice_each stop_move_in unregister_trailing_stop (by_text b.trailing_stops)
          (record { repriced = 0; failed = failures }, b)

    -- `reprice_pegged_orders` and `reprice_trailing_stops` give the count alone.
    unfoldable pub reprice_pegged_orders : Book P → ℕ × Book P
    unfolding reprice_pegged_collecting
    reprice_pegged_orders b = let (t, b') = reprice_pegged_collecting [] b in (t.repriced, b')

    unfoldable pub reprice_trailing_stops : Book P → ℕ × Book P
    unfolding reprice_trailing_collecting
    reprice_trailing_stops b = let (t, b') = reprice_trailing_collecting [] b in (t.repriced, b')

    unfoldable pub reprice_special_orders : Book P → RepricingResult × Book P
    unfolding reprice_pegged_collecting reprice_trailing_collecting
    reprice_special_orders b =
        let (pegged, b₁) = reprice_pegged_collecting [] b in
        let (trailing, b₂) = reprice_trailing_collecting pegged.failed b₁ in
        (
          record {
            pegged_orders_repriced = pegged.repriced;
            trailing_stops_repriced = trailing.repriced;
            failed_orders = trailing.failed;
          },
          b₂,
        )
