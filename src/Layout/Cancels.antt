-- ===== src/Layout/Cancels.antt =====
-- Cancels, one or many, leave the sides of the book laid out (src/orderbook/modifications.rs,
-- src/orderbook/mass_cancel.rs).
use order_book_rs.Prelude.{
  ℕ, ◌≡◌, refl, ◌∙◌, Bool, List, [], ◌∷◌, ◌++◌, ◌==◌, if_cases, length, ltb,
}
use order_book_rs.Prelude.Maps.{Map, erase}
use order_book_rs.Types.{Side, Order}
use order_book_rs.OrderState.{CancelReason}
use order_book_rs.PriceLevel.{PriceLevels, PriceLevelLaws}
use order_book_rs.Book.{Book, invalidate, emit_level_change, side_levels, put_side}
use order_book_rs.Cancel.{settle_level, strike, cancel_order_with_reason}
use order_book_rs.Cancel.Effects.{cancel_cases, lookup-IsKeyed}
use order_book_rs.Layout.{
  IsSide, IsLaidOut, erase-IsSide, replace-IsSide, side_levels-IsSide, put_side-IsLaidOut,
  same_sides-IsLaidOut,
}
use order_book_rs.MassCancel.{
  MassCancelResult, result_of, collect_ids, collect_order_ids, resting_ids, in_range, user_ids,
  tif_expired_at, cancel_each, cancel_order_batch_with_reason, cancel_orders_by_side,
  cancel_orders_by_user, cancel_orders_by_price_range, evict_expired_orders, drain,
  cancel_all_orders,
}

module _ (P : PriceLevels) (L : PriceLevelLaws P) where
  open P use {Level, level_price, order_count}

  pub settle_level-IsSide :
      (price : ℕ) (level : Level) (m : Map Level)
      → level_price level ≡ price
      → IsSide P m
      → IsSide P (settle_level P price level m)
  unfolding settle_level
  settle_level-IsSide price level m e s =
      if_cases (IsSide P) (order_count level == 0) _ _ (λ _. erase-IsSide P price m s)
        (λ _. replace-IsSide P price level m e s)

  pub cancel_order-IsLaidOut :
      (b : Book P) (id : ℕ) (reason : CancelReason)
      → IsLaidOut P b
      → IsLaidOut P (cancel_order_with_reason P b id reason).1
  unfolding strike emit_level_change
  cancel_order-IsLaidOut b id reason h =
      cancel_cases P (λ r. IsLaidOut P r.1) b id reason
        (record { bid_side = h.bid_side; ask_side = h.ask_side })
        λ price side level level' o located standing taken.
          let s = side_levels-IsSide P b side h in
          let placed = put_side b side (settle_level P price level' (side_levels b side)) in
          same_sides-IsLaidOut P placed _ refl refl (
            put_side-IsLaidOut P b side _
              (settle_level-IsSide price level' (side_levels b side)
                (L.cancel_price level level' o id taken
                  ∙ lookup-IsKeyed P price level (side_levels b side) s.keyed standing)
                s)
              h)

  cancel_each-IsLaidOut :
      (ids : List ℕ) (reason : CancelReason) (b : Book P)
      → IsLaidOut P b
      → IsLaidOut P (cancel_each P ids reason b).1
  unfolding cancel_each
  cancel_each-IsLaidOut [] reason b h = h
  cancel_each-IsLaidOut (id ∷ ids) reason b h =
      cancel_each-IsLaidOut ids reason (cancel_order_with_reason P b id reason).1
        (cancel_order-IsLaidOut b id reason h)

  batch-IsLaidOut :
      (b : Book P) (ids : List ℕ) (reason : CancelReason)
      → IsLaidOut P b
      → IsLaidOut P (cancel_order_batch_with_reason P b ids reason).1
  unfolding cancel_order_batch_with_reason
  batch-IsLaidOut b ids reason h = cancel_each-IsLaidOut ids reason b h

  pub cancel_all-IsLaidOut : (b : Book P) → IsLaidOut P b → IsLaidOut P (cancel_all_orders P b).1
  unfolding cancel_all_orders drain
  cancel_all-IsLaidOut b h =
      let start : Book P = record b { cache = invalidate b.cache } in
      if_cases (IsLaidOut P) (length (resting_ids P start) == 0) start
        (drain P (resting_ids P start) start)
        (λ _. record { bid_side = h.bid_side; ask_side = h.ask_side })
        (λ _. record {
          bid_side = record { keyed = tt; ascending = tt };
          ask_side = record { keyed = tt; ascending = tt };
        })

  pub by_side-IsLaidOut :
      (b : Book P) (side : Side) → IsLaidOut P b → IsLaidOut P (cancel_orders_by_side P b side).1
  unfolding cancel_orders_by_side
  by_side-IsLaidOut b side h =
      batch-IsLaidOut b (collect_order_ids P (side_levels b side)) CancelReason.mass_cancel_by_side
        h

  pub by_user-IsLaidOut :
      (b : Book P) (user_id : ℕ) → IsLaidOut P b → IsLaidOut P (cancel_orders_by_user P b user_id).1
  unfolding cancel_orders_by_user
  by_user-IsLaidOut b user_id h =
      batch-IsLaidOut (record b { user_orders = erase user_id b.user_orders })
        (user_ids user_id b.user_orders) CancelReason.mass_cancel_by_user
        (record { bid_side = h.bid_side; ask_side = h.ask_side })

  pub by_range-IsLaidOut :
      (b : Book P) (side : Side) (min_price max_price : ℕ)
      → IsLaidOut P b
      → IsLaidOut P (cancel_orders_by_price_range P b side min_price max_price).1
  unfolding cancel_orders_by_price_range
  by_range-IsLaidOut b side min_price max_price h =
      let in_band : List ℕ =
        collect_order_ids P (in_range P min_price max_price (side_levels b side)) in
      if_cases (λ (r : MassCancelResult × Book P). IsLaidOut P r.1) (ltb max_price min_price)
        (result_of [], b)
        (cancel_order_batch_with_reason P b in_band CancelReason.mass_cancel_by_price_range)
        (λ _. h) (λ _. batch-IsLaidOut b in_band CancelReason.mass_cancel_by_price_range h)

  pub evict-IsLaidOut :
      (b : Book P) (now : ℕ) → IsLaidOut P b → IsLaidOut P (evict_expired_orders P b now).1
  unfolding evict_expired_orders
  evict-IsLaidOut b now h =
      let test : Order → Bool = tif_expired_at P b now in
      cancel_each-IsLaidOut (collect_ids P test b.bids ++ collect_ids P test b.asks)
        CancelReason.time_in_force_expired b h
