-- ===== src/Modify.antt =====
-- `update_order` of src/orderbook/modifications.rs: the five updates of a resting order, and the
-- guard against a re-price that would cross the account's own orders.
pub mod Gates
pub mod Outcomes
pub mod Effects
pub mod Atomic
use order_book_rs.Prelude.{
  ℕ, ◌-◌, Bool, true, false, ◌||◌, not, Option, none, some, List, [], ◌∷◌, ◌==◌, leb, if◌then◌else◌,
  any,
}
use Prim.Native.String.{String}
use order_book_rs.Prelude.Maps
use order_book_rs.Prelude.Maps.{Map, lookup, erase}
use order_book_rs.Prelude.Result.{Result, ok, err}
use order_book_rs.Types.{Side, opposite, Order, OrderKind}
use order_book_rs.Error.{BookError, StpMode}
use order_book_rs.OrderState.{CancelReason}
use order_book_rs.PriceLevel.{PriceLevels}
use order_book_rs.Risk.{on_quantity_update}
use order_book_rs.Book.{
  Book, invalidate, emit_level_change, untrack_order_by_id, side_levels, put_side,
}
use order_book_rs.Orders.{total_quantity, set_quantity}
use order_book_rs.Queries.{check_kill_switch, check_risk_modify_admission, find_order, get_order}
use order_book_rs.Matching.Submit.{best_first}
use order_book_rs.Cancel.{cancel_order_with_reason}
use order_book_rs.Submission.Shape.{◌then_in◌, validate_order_shape}
use order_book_rs.Submission.Add.{Answer, add_order_inner}

-- `OrderUpdate`
pub data OrderUpdate : Type 0 where
  update_price : ℕ → ℕ → OrderUpdate
  update_quantity : ℕ → ℕ → OrderUpdate
  update_price_and_quantity : ℕ → ℕ → ℕ → OrderUpdate
  cancel : ℕ → OrderUpdate
  replace : ℕ → ℕ → ℕ → Side → OrderUpdate

unfoldable pub is_modify : OrderUpdate → Bool
is_modify (OrderUpdate.cancel id) = false
is_modify _ = true

-- A replacement overwrites the quantity, or the visible one, and nothing else of the kind.
unfoldable pub put_quantity : OrderKind → ℕ → OrderKind
put_quantity (OrderKind.standard q) new = OrderKind.standard new
put_quantity (OrderKind.post_only q) new = OrderKind.post_only new
put_quantity (OrderKind.trailing_stop q trail reference) new =
    OrderKind.trailing_stop new trail reference
put_quantity (OrderKind.pegged q reference offset) new = OrderKind.pegged new reference offset
put_quantity (OrderKind.market_to_limit q) new = OrderKind.market_to_limit new
put_quantity (OrderKind.iceberg visible hidden) new = OrderKind.iceberg new hidden
put_quantity (OrderKind.reserve visible hidden amount auto) new =
    OrderKind.reserve new hidden amount auto

unfoldable pub replaced : Order → ℕ → ℕ → ℕ → Side → Order
unfolding put_quantity
replaced o id price quantity side = record o {
  id = id;
  price = price;
  side = side;
  kind = put_quantity o.kind quantity;
}

-- Only these modes cancel the taker.
unfoldable pub cancels_taker : StpMode → Bool
cancels_taker StpMode.cancel_taker = true
cancels_taker StpMode.cancel_both = true
cancels_taker _ = false

-- The price of an order against that of an opposite level.
unfoldable pub crosses_level : Side → ℕ → ℕ → Bool
crosses_level Side.buy new_price price = leb price new_price
crosses_level Side.sell new_price price = leb new_price price

module _ (P : PriceLevels) where
  open P use {Level, snapshot_by_seq, matchable_quantity, order_count}

  -- The walk over the opposite levels with what would remain of the order.
  unfoldable pub self_cross : StpMode → Order → ℕ → Map Level → Result BookError (Unit {0})
  unfolding crosses_level
  self_cross mode o remaining [] = ok tt
  self_cross mode o remaining ((price, level) ∷ levels) =
      let rest = self_cross mode o (remaining - matchable_quantity level remaining o.id) levels in
      if remaining == 0 || not (crosses_level o.side o.price price)
      then ok tt
      else if any (λ (m : Order). m.user_id == o.user_id) (snapshot_by_seq level)
      then err (BookError.self_trade_prevented mode o.id o.user_id)
      else rest

  unfoldable pub check_modify_stp_self_cross : Book P → Order → Result BookError (Unit {0})
  unfolding cancels_taker self_cross
  check_modify_stp_self_cross b o =
      if not (cancels_taker b.stp_mode) || (o.user_id == 0)
      then ok tt
      else self_cross b.stp_mode o (total_quantity o.kind)
          (best_first o.side (side_levels b (opposite o.side)))

  -- What every re-price passes before the original is cancelled.
  unfoldable pub check_modify : Book P → ℕ → Order → Result BookError (Unit {0}) × Book P
  unfolding validate_order_shape check_risk_modify_admission check_modify_stp_self_cross
  check_modify b id new_order =
      validate_order_shape P b new_order
      then_in (λ _ b.
          check_risk_modify_admission P b id new_order.user_id new_order.price
            (total_quantity new_order.kind))
      then_in (λ _ b. (check_modify_stp_self_cross b new_order, b))

  -- `Ok(Some(result))`
  abbrev pub answer :
      Result BookError (Answer P) × Book P → Result BookError (Option Order) × Book P
  answer (ok (o, report), b) = (ok (some o), b)
  answer (err e, b) = (err e, b)

  -- The original goes, and the new order comes in its place.
  unfoldable pub cancel_and_add : Book P → ℕ → Order → Result BookError (Option Order) × Book P
  unfolding cancel_order_with_reason add_order_inner
  cancel_and_add b id new_order = answer (
      add_order_inner P (cancel_order_with_reason P b id CancelReason.user_requested).1 new_order
        false)

  unfoldable pub resubmit : Book P → ℕ → Order → Result BookError (Option Order) × Book P
  unfolding check_modify cancel_and_add
  resubmit b id new_order =
      check_modify b id new_order then_in (λ _ b. cancel_and_add b id new_order)

  -- A re-price of the order that is found.
  unfoldable pub modify_found :
      Book P → ℕ → (Order → Order) → Result BookError (Option Order) × Book P
  unfolding get_order resubmit
  modify_found b id change = elim (get_order P b id) [
    | none ↦ (ok none, b)
    | some original ↦ resubmit b id (change original)
  ]

  unfoldable pub do_update_price : Book P → ℕ → ℕ → Result BookError (Option Order) × Book P
  unfolding modify_found
  do_update_price b id new_price = elim (lookup id b.order_locations) [
    | none ↦ (ok none, b)
    | some (old_price, side) ↦
        if old_price == new_price
        then (err (BookError.invalid_operation "Cannot update price to the same value"), b)
        else modify_found b id (λ o. record o { price = new_price })
  ]

  unfoldable pub do_update_price_and_quantity :
      Book P → ℕ → ℕ → ℕ → Result BookError (Option Order) × Book P
  unfolding modify_found set_quantity
  do_update_price_and_quantity b id new_price new_quantity = elim (lookup id b.order_locations) [
    | none ↦ (ok none, b)
    | some location ↦
        modify_found b id
          (λ o. record o { price = new_price; kind = set_quantity o.kind new_quantity })
  ]

  unfoldable pub do_replace : Book P → ℕ → ℕ → ℕ → Side → Result BookError (Option Order) × Book P
  unfolding modify_found replaced
  do_replace b id price quantity side = modify_found b id (λ o. replaced o id price quantity side)

  -- The level after an update of a quantity. An emptied level goes, and with it the order's entries.
  unfoldable pub store_level : Book P → ℕ → ℕ → Side → Level → Book P
  store_level b id price side level =
      if order_count level == 0
      then record (put_side b side (erase price (side_levels b side))) {
        order_locations = erase id b.order_locations;
        user_orders = untrack_order_by_id id b.user_orders;
        cache = invalidate b.cache;
      }
      else record (put_side b side (Maps.replace price level (side_levels b side))) {
        cache = invalidate b.cache;
      }

  -- What the level answers to the update.
  unfoldable pub apply_quantity :
      Book P
      → ℕ
      → ℕ
      → Side
      → Level
      → Result String (Option Order × Level)
      → Result BookError (Option Order) × Book P
  unfolding store_level
  apply_quantity b id price side level (err e) = (err (BookError.price_level_error e), b)
  apply_quantity b id price side level (ok (none, level')) =
      (ok none, store_level b id price side level')
  apply_quantity b id price side level (ok (some o, level')) = (
    ok (some o),
    store_level
        (emit_level_change
          (record b { risk_state = on_quantity_update b.risk_state id (total_quantity o.kind) })
          side level')
        id price side level',
  )

  -- The update of a quantity in place, at the level where the order is located.
  unfoldable pub update_at :
      Book P → ℕ → ℕ → ℕ → Side → Level → Result BookError (Option Order) × Book P
  unfolding find_order validate_order_shape check_risk_modify_admission apply_quantity
  update_at b id new_quantity price side level = elim (find_order P id (snapshot_by_seq level)) [
    | none ↦ (ok none, b)
    | some current ↦
        let projected = P.with_reduced_quantity current new_quantity in
        validate_order_shape P b projected
        then_in (λ _ b.
            check_risk_modify_admission P b id projected.user_id price
              (total_quantity projected.kind))
        then_in (λ _ b.
            apply_quantity b id price side level (P.update_quantity level id new_quantity))
  ]

  unfoldable pub do_update_quantity : Book P → ℕ → ℕ → Result BookError (Option Order) × Book P
  unfolding update_at
  do_update_quantity b id new_quantity = elim (lookup id b.order_locations) [
    | none ↦ (ok none, b)
    | some (price, side) ↦ elim (lookup price (side_levels b side)) [
      | none ↦ (ok none, record b { cache = invalidate b.cache })
      | some level ↦ update_at b id new_quantity price side level
    ]
  ]

  -- The order leaves its level, if the level has it.
  unfoldable pub take_from_level : Book P → ℕ → ℕ → Side → Book P
  take_from_level b id price side = elim (lookup price (side_levels b side)) [
    | none ↦ b
    | some level ↦ elim (P.cancel level id) [
      | none ↦
          if order_count level == 0 then put_side b side (erase price (side_levels b side)) else b
      | some (o, level') ↦ put_side (emit_level_change b side level') side (
          if order_count level' == 0
          then erase price (side_levels b side)
          else Maps.replace price level' (side_levels b side))
    ]
  ]

  -- The cancel among the updates: the level and the indices, and nothing else.
  unfoldable pub do_cancel : Book P → ℕ → Result BookError (Option Order) × Book P
  unfolding get_order take_from_level
  do_cancel b id = elim (lookup id b.order_locations) [
    | none ↦ (ok none, b)
    | some (price, side) ↦ elim (get_order P b id) [
      | none ↦ (ok none, b)
      | some o ↦
          let b' = take_from_level b id price side in
          (
            ok (some o),
            record b' {
              order_locations = erase id b'.order_locations;
              user_orders = untrack_order_by_id id b'.user_orders;
            },
          )
    ]
  ]

  unfoldable pub dispatch : Book P → OrderUpdate → Result BookError (Option Order) × Book P
  unfolding do_update_price do_update_quantity do_update_price_and_quantity do_cancel do_replace
  dispatch b (OrderUpdate.update_price id price) = do_update_price b id price
  dispatch b (OrderUpdate.update_quantity id quantity) = do_update_quantity b id quantity
  dispatch b (OrderUpdate.update_price_and_quantity id price quantity) =
      do_update_price_and_quantity b id price quantity
  dispatch b (OrderUpdate.cancel id) = do_cancel b id
  dispatch b (OrderUpdate.replace id price quantity side) = do_replace b id price quantity side

  unfoldable pub update_order : Book P → OrderUpdate → Result BookError (Option Order) × Book P
  unfolding is_modify check_kill_switch dispatch
  update_order b update =
      (if is_modify update then check_kill_switch P b else ok tt, b)
      then_in (λ _ b. dispatch (record b { cache = invalidate b.cache }) update)
