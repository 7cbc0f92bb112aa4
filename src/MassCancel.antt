-- ===== src/MassCancel.antt =====
-- src/orderbook/mass_cancel.rs: the cancels of many orders, and the eviction of expired ones.
pub mod Listing
pub mod Effects
use order_book_rs.Prelude.{
  ℕ, Option, none, some, List, [], ◌∷◌, ◌++◌, map, length, keep, leb, ltb, ◌&&◌, ◌==◌,
  if◌then◌else◌, Bool,
}
use order_book_rs.Prelude.Maps.{Map, lookup, erase}
use order_book_rs.Types.{Side, Order}
use order_book_rs.PriceLevel.{PriceLevels}
use order_book_rs.Risk.{clear}
use order_book_rs.OrderState.{Tracker, OrderStatus, CancelReason}
use order_book_rs.Book.{
  Book, Feed, notify, invalidate, feed_of, track_state, prior_fill, side_levels,
}
use order_book_rs.Queries.{market_close_for_expiry}
use order_book_rs.Cancel.{cancel_order_with_reason}

pub record MassCancelResult : Type 0 where
  pub cancelled_count : ℕ
  pub cancelled_order_ids : List ℕ

unfoldable pub result_of : List ℕ → MassCancelResult
result_of ids = record { cancelled_count = length ids; cancelled_order_ids = ids }

-- The orders of an account, none where it has no entry: `unwrap_or_default`.
unfoldable pub user_ids : ℕ → Map (List ℕ) → List ℕ
user_ids user_id m = elim (lookup user_id m) [ none ↦ [] | some ids ↦ ids ]

module _ (P : PriceLevels) where
  open P use {Level, snapshot_by_seq, is_expired}

  -- The ids of the resting orders that pass a test, level by level in ascending order of price.
  unfoldable pub collect_ids : (Order → Bool) → Map Level → List ℕ
  collect_ids test [] = []
  collect_ids test ((price, level) ∷ levels) =
      map (λ (o : Order). o.id) (keep test (snapshot_by_seq level)) ++ collect_ids test levels

  -- The ids of all resting orders of some levels.
  unfoldable pub collect_order_ids : Map Level → List ℕ
  unfolding collect_ids
  collect_order_ids levels = collect_ids (λ o. Bool.true) levels

  -- The ids of all resting orders, bids first.
  unfoldable pub resting_ids : Book P → List ℕ
  unfolding collect_order_ids
  resting_ids b = collect_order_ids b.bids ++ collect_order_ids b.asks

  -- The orders that single cancels find, with their ids, and the book after all of them.
  unfoldable pub cancel_each : List ℕ → CancelReason → Book P → List (ℕ × Order) × Book P
  unfolding cancel_order_with_reason
  cancel_each [] reason b = ([], b)
  cancel_each (id ∷ ids) reason b =
      let (found, b₁) = cancel_order_with_reason P b id reason in
      let (others, b₂) = cancel_each ids reason b₁ in
      (elim found [ none ↦ others | some o ↦ (id, o) ∷ others ], b₂)

  unfoldable pub cancel_order_batch_with_reason :
      Book P → List ℕ → CancelReason → MassCancelResult × Book P
  unfolding cancel_each
  cancel_order_batch_with_reason b ids reason =
      let (done, b') = cancel_each ids reason b in
      (result_of (map (λ (e : ℕ × Order). e.0) done), b')

  unfoldable pub cancel_orders_by_side : Book P → Side → MassCancelResult × Book P
  unfolding cancel_order_batch_with_reason
  cancel_orders_by_side b side =
      cancel_order_batch_with_reason b (collect_order_ids (side_levels b side))
        CancelReason.mass_cancel_by_side

  -- The account's list of orders goes first.
  unfoldable pub cancel_orders_by_user : Book P → ℕ → MassCancelResult × Book P
  unfolding cancel_order_batch_with_reason
  cancel_orders_by_user b user_id =
      cancel_order_batch_with_reason (record b { user_orders = erase user_id b.user_orders })
        (user_ids user_id b.user_orders) CancelReason.mass_cancel_by_user

  -- `range(min..=max)`
  unfoldable pub in_range : ℕ → ℕ → Map Level → Map Level
  in_range min_price max_price = keep (λ (e : ℕ × Level). leb min_price e.0 && leb e.0 max_price)

  unfoldable pub cancel_orders_by_price_range : Book P → Side → ℕ → ℕ → MassCancelResult × Book P
  unfolding cancel_order_batch_with_reason in_range
  cancel_orders_by_price_range b side min_price max_price =
      if ltb max_price min_price
      then (result_of [], b)
      else cancel_order_batch_with_reason b
          (collect_order_ids (in_range min_price max_price (side_levels b side)))
          CancelReason.mass_cancel_by_price_range

  -- `tif_expired_at`
  unfoldable pub tif_expired_at : Book P → ℕ → Order → Bool
  unfolding market_close_for_expiry
  tif_expired_at b now o = is_expired o.time_in_force now (market_close_for_expiry P b)

  unfoldable pub evict_expired_orders : Book P → ℕ → List Order × Book P
  unfolding cancel_each tif_expired_at
  evict_expired_orders b now =
      let test : Order → Bool = tif_expired_at b now in
      let (evicted, b') =
        cancel_each (collect_ids test b.bids ++ collect_ids test b.asks)
          CancelReason.time_in_force_expired b in
      (map (λ (e : ℕ × Order). e.1) evicted, b')

  -- Every level of a side is reported as empty.
  unfoldable pub announce : Bool → Side → Map Level → Feed → Feed
  unfolding notify
  announce listening side [] f = f
  announce listening side ((price, level) ∷ levels) f =
      announce listening side levels (notify listening f side price 0)

  -- Every order is recorded as cancelled.
  unfoldable pub track_all : List ℕ → Option Tracker → Option Tracker
  track_all [] t = t
  track_all (id ∷ ids) t =
      track_all ids
        (track_state t id (OrderStatus.cancelled (prior_fill t id) CancelReason.mass_cancel_all))

  -- The book without any order.
  unfoldable pub drain : List ℕ → Book P → Book P
  unfolding announce track_all
  drain ids b =
      let f =
        announce b.has_level_listener Side.sell b.asks
          (announce b.has_level_listener Side.buy b.bids (feed_of b)) in
      record b {
        engine_seq = f.seq;
        level_events = f.events;
        tracker = track_all ids b.tracker;
        order_locations = [];
        user_orders = [];
        bids = [];
        asks = [];
        pegged_orders = [];
        trailing_stops = [];
        risk_state = clear b.risk_state;
        cache = invalidate b.cache;
      }

  unfoldable pub cancel_all_orders : Book P → MassCancelResult × Book P
  unfolding resting_ids drain
  cancel_all_orders b =
      let start : Book P = record b { cache = invalidate b.cache } in
      let ids : List ℕ = resting_ids start in
      (result_of ids, if length ids == 0 then start else drain ids start)
