-- ===== src/Cancel.antt =====
-- `cancel_order_with_reason` of src/orderbook/modifications.rs: one resting order, found by its id.
pub mod Effects
use order_book_rs.Prelude.{
  ℕ, ◌+◌, Bool, true, false, Option, none, some, List, [], ◌∷◌, ◌==◌, if◌then◌else◌,
}
use order_book_rs.Prelude.Maps.{Map, lookup, erase, replace}
use order_book_rs.Types.{Side, Order}
use order_book_rs.PriceLevel.{PriceLevels}
use order_book_rs.Risk.{on_cancel}
use order_book_rs.OrderState.{OrderStatus, CancelReason}
use order_book_rs.Book.{
  Book, invalidate, emit_level_change, track_state, prior_fill, untrack_user_order, without,
  side_levels, put_side,
}

module _ (P : PriceLevels) where
  open P use {Level, cancel, order_count}

  -- A side after an order has left a level: an emptied level goes.
  unfoldable pub settle_level : ℕ → Level → Map Level → Map Level
  settle_level price level levels =
      if order_count level == 0 then erase price levels else replace price level levels

  -- The order that the level gave up is struck from the indices, the tracker and the risk counters.
  unfoldable pub strike : ℕ → CancelReason → Order → Book P → Book P
  strike id reason o b = record b {
    tracker = track_state b.tracker id (OrderStatus.cancelled (prior_fill b.tracker id) reason);
    order_locations = erase id b.order_locations;
    risk_state = on_cancel b.risk_state id;
    user_orders = untrack_user_order o.user_id id b.user_orders;
    pegged_orders = without id b.pegged_orders;
    trailing_stops = without id b.trailing_stops;
  }

  -- The cancel at the price and side where the order is said to rest.
  unfoldable pub cancel_at : ℕ → CancelReason → ℕ → Side → Book P → Option Order × Book P
  unfolding settle_level strike
  cancel_at id reason price side b = elim (lookup price (side_levels b side)) [
    | none ↦ (none, b)
    | some level ↦ elim (cancel level id) [
      | none ↦ (none, b)
      | some (o, level') ↦ (
        some o,
        strike id reason o (
            put_side (emit_level_change b side level') side
              (settle_level price level' (side_levels b side))),
      )
    ]
  ]

  unfoldable pub cancel_order_with_reason : Book P → ℕ → CancelReason → Option Order × Book P
  unfolding cancel_at
  cancel_order_with_reason book id reason =
      let b : Book P = record book { cache = invalidate book.cache } in
      elim (lookup id b.order_locations) [
        | none ↦ (none, b)
        | some (price, side) ↦ cancel_at id reason price side b
      ]

  -- `cancel_order`
  unfoldable pub cancel_order : Book P → ℕ → Option Order × Book P
  unfolding cancel_order_with_reason
  cancel_order b id = cancel_order_with_reason b id CancelReason.user_requested
