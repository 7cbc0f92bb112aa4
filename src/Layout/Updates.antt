-- ===== src/Layout/Updates.antt =====
-- Updates of resting orders leave the sides of the book laid out (src/orderbook/modifications.rs,
-- `update_order`).
use order_book_rs.Prelude.{
  ℕ, ◌≡◌, refl, ◌∙◌, false, Option, none, some, ◌==◌, if_cases, option_cases,
}
use Prim.Native.String.{String}
use order_book_rs.Prelude.Maps
use order_book_rs.Prelude.Maps.{Map, lookup, erase}
use order_book_rs.Prelude.Result.{Result, ok, err}
use order_book_rs.Types.{Side, Order}
use order_book_rs.Error.{BookError}
use order_book_rs.OrderState.{CancelReason}
use order_book_rs.PriceLevel.{PriceLevels, PriceLevelLaws}
use order_book_rs.Orders.{set_quantity, total_quantity}
use order_book_rs.Book.{Book, invalidate, emit_level_change, side_levels, put_side}
use order_book_rs.Queries.{check_risk_modify_admission, find_order, get_order}
use order_book_rs.Cancel.{cancel_order_with_reason}
use order_book_rs.Cancel.Effects.{lookup-IsKeyed}
use order_book_rs.Submission.Shape.{◌then_in◌, validate_order_shape}
use order_book_rs.Submission.Add.{Answer, add_order_inner}
use order_book_rs.Submission.Effects.{then_in-Holds}
use order_book_rs.Submission.Effects.Sides.{add_order_inner-IsLaidOut}
use order_book_rs.Submission.Steps.{IsUntouched, then_in-IsUntouched, validate-IsUntouched}
use order_book_rs.Modify.{
  OrderUpdate, replaced, answer, check_modify, cancel_and_add, resubmit, modify_found,
  do_update_price, do_update_price_and_quantity, do_replace, store_level, apply_quantity, update_at,
  do_update_quantity, take_from_level, do_cancel, dispatch, update_order,
}
use order_book_rs.Modify.Gates.{check_modify-IsUntouched, check_risk_modify-IsUntouched}
use order_book_rs.Layout.{
  IsSide, IsLaidOut, erase-IsSide, replace-IsSide, side_levels-IsSide, put_side-IsLaidOut,
  same_sides-IsLaidOut,
}
use order_book_rs.Layout.Cancels.{cancel_order-IsLaidOut}

module _ (P : PriceLevels) (L : PriceLevelLaws P) where
  open P use {Level, level_price, order_count}

  abbrev Laid : Result BookError (Option Order) × Book P → Type 0
  Laid r = IsLaidOut P r.1

  cancel_and_add-IsLaidOut :
      (b : Book P) (id : ℕ) (new : Order) → IsLaidOut P b → Laid (cancel_and_add P b id new)
  unfolding cancel_and_add
  cancel_and_add-IsLaidOut b id new h =
      of_answer
        (add_order_inner P (cancel_order_with_reason P b id CancelReason.user_requested).1 new
          false)
        (add_order_inner-IsLaidOut P L _ new false
          (cancel_order-IsLaidOut P L b id CancelReason.user_requested h))
    where
      of_answer : (r : Result BookError (Answer P) × Book P) → IsLaidOut P r.1 → Laid (answer P r)
      of_answer (ok a, b) h = h
      of_answer (err e, b) h = h

  modify_found-IsLaidOut :
      (b : Book P) (id : ℕ) (change : Order → Order)
      → IsLaidOut P b
      → Laid (modify_found P b id change)
  unfolding modify_found resubmit
  modify_found-IsLaidOut b id change h =
      option_cases Laid (get_order P b id) _ _ (λ _. h)
        (λ o _.
          let same =
            check_modify-IsUntouched P b id (change o) b (refl, refl, refl, refl, refl, refl) in
          then_in-Holds P (IsLaidOut P) (check_modify P b id (change o)) _
            (same_sides-IsLaidOut P b (check_modify P b id (change o)).1 same.0 same.1 h)
            (λ _ b' h'. cancel_and_add-IsLaidOut b' id (change o) h'))

  module _ (price : ℕ) (side : Side) (level level' : Level)
      (same : level_price level' ≡ level_price level) where
    store_level-IsLaidOut :
        (b : Book P) (id : ℕ)
        → level_price level ≡ price
        → IsLaidOut P b
        → IsLaidOut P (store_level P b id price side level')
    unfolding store_level
    store_level-IsLaidOut b id e h =
        let s = side_levels-IsSide P b side h in
        let m = side_levels b side in
        if_cases (IsLaidOut P) (order_count level' == 0) _ _
          (λ _.
            same_sides-IsLaidOut P (put_side b side (erase price m)) _ refl refl
              (put_side-IsLaidOut P b side (erase price m) (erase-IsSide P price m s) h))
          (λ _. same_sides-IsLaidOut P (put_side b side (Maps.replace price level' m)) _ refl refl (
            put_side-IsLaidOut P b side (Maps.replace price level' m)
              (replace-IsSide P price level' m (same ∙ e) s) h))

  apply_quantity-IsLaidOut :
      (b : Book P) (id quantity price : ℕ) (side : Side) (level : Level)
      → level_price level ≡ price
      → IsLaidOut P b
      → Laid (apply_quantity P b id price side level (P.update_quantity level id quantity))
  unfolding apply_quantity emit_level_change
  apply_quantity-IsLaidOut b id quantity price side level e h =
      of_result (P.update_quantity level id quantity) refl
    where
      of_result :
          (r : Result String (Option Order × Level))
          → P.update_quantity level id quantity ≡ r
          → Laid (apply_quantity P b id price side level r)
      of_result (err x) a = h
      of_result (ok (none, level')) a =
          store_level-IsLaidOut price side level level'
            (L.price-update_quantity level level' id quantity none a) b id e h
      of_result (ok (some o, level')) a =
          store_level-IsLaidOut price side level level'
            (L.price-update_quantity level level' id quantity (some o) a) _ id e
            (record { bid_side = h.bid_side; ask_side = h.ask_side })

  update_at-IsLaidOut :
      (b : Book P) (id quantity price : ℕ) (side : Side) (level : Level)
      → level_price level ≡ price
      → IsLaidOut P b
      → Laid (update_at P b id quantity price side level)
  unfolding update_at
  update_at-IsLaidOut b id quantity price side level e h =
      option_cases Laid (find_order P id (P.snapshot_by_seq level)) _ _ (λ _. h)
        (λ current _.
          let projected = P.with_reduced_quantity current quantity in
          let total = total_quantity projected.kind in
          let start : IsUntouched P b b = (refl, refl, refl, refl, refl, refl) in
          let checked =
            (validate_order_shape P b projected
              then_in (λ _ b. check_risk_modify_admission P b id projected.user_id price total)) in
          let same =
            then_in-IsUntouched P b (validate_order_shape P b projected) _
              (validate-IsUntouched P b b projected start)
              (λ _ b' h. check_risk_modify-IsUntouched P b b' id projected.user_id price total h) in
          then_in-Holds P (IsLaidOut P) checked _
            (same_sides-IsLaidOut P b checked.1 same.0 same.1 h)
            (λ _ b' h'. apply_quantity-IsLaidOut b' id quantity price side level e h'))

  take_from_level-IsLaidOut :
      (b : Book P) (id price : ℕ) (side : Side)
      → IsLaidOut P b
      → IsLaidOut P (take_from_level P b id price side)
  unfolding take_from_level emit_level_change
  take_from_level-IsLaidOut b id price side h =
      let m = side_levels b side in
      let s = side_levels-IsSide P b side h in
      let erased = put_side-IsLaidOut P b side (erase price m) (erase-IsSide P price m s) h in
      option_cases (IsLaidOut P) (lookup price m) _ _ (λ _. h)
        (λ level standing.
          option_cases (IsLaidOut P) (P.cancel level id) _ _
            (λ _. if_cases (IsLaidOut P) (order_count level == 0) _ _ (λ _. erased) (λ _. h))
            (λ (o, level') taken.
              put_side-IsLaidOut P _ side _
                (if_cases (IsSide P) (order_count level' == 0) _ _ (λ _. erase-IsSide P price m s)
                  (λ _.
                    replace-IsSide P price level' m
                      (L.cancel_price level level' o id taken
                        ∙ lookup-IsKeyed P price level m s.keyed standing)
                      s))
                (record { bid_side = h.bid_side; ask_side = h.ask_side })))

  dispatch-IsLaidOut :
      (b : Book P) (update : OrderUpdate) → IsLaidOut P b → Laid (dispatch P b update)
  unfolding dispatch do_update_price do_update_quantity do_update_price_and_quantity do_cancel
      do_replace
  dispatch-IsLaidOut b (OrderUpdate.update_price id new_price) h =
      option_cases Laid (lookup id b.order_locations) _ _ (λ _. h)
        (λ (old_price, side) _.
          if_cases Laid (old_price == new_price) _ _ (λ _. h)
            (λ _. modify_found-IsLaidOut b id (λ o. record o { price = new_price }) h))
  dispatch-IsLaidOut b (OrderUpdate.update_quantity id quantity) h =
      option_cases Laid (lookup id b.order_locations) _ _ (λ _. h)
        (λ (price, side) _.
          option_cases Laid (lookup price (side_levels b side)) _ _
            (λ _. same_sides-IsLaidOut P b _ refl refl h)
            (λ level standing.
              update_at-IsLaidOut b id quantity price side level
                (lookup-IsKeyed P price level (side_levels b side)
                  (side_levels-IsSide P b side h).keyed standing)
                h))
  dispatch-IsLaidOut b (OrderUpdate.update_price_and_quantity id new_price quantity) h =
      option_cases Laid (lookup id b.order_locations) _ _ (λ _. h)
        (λ location _.
          modify_found-IsLaidOut b id
            (λ o. record o { price = new_price; kind = set_quantity o.kind quantity }) h)
  dispatch-IsLaidOut b (OrderUpdate.cancel id) h =
      option_cases Laid (lookup id b.order_locations) _ _ (λ _. h)
        (λ (price, side) _.
          option_cases Laid (get_order P b id) _ _ (λ _. h)
            (λ o _.
              same_sides-IsLaidOut P (take_from_level P b id price side) _ refl refl
                (take_from_level-IsLaidOut b id price side h)))
  dispatch-IsLaidOut b (OrderUpdate.replace id price quantity side) h =
      modify_found-IsLaidOut b id (λ o. replaced o id price quantity side) h

  -- An update, carried out or refused, leaves both sides laid out.
  pub update_order-IsLaidOut :
      (b : Book P) (update : OrderUpdate) → IsLaidOut P b → IsLaidOut P (update_order P b update).1
  unfolding update_order
  update_order-IsLaidOut b update h = then_in-Holds P (IsLaidOut P) _ _ h (λ _ b' h'.
      dispatch-IsLaidOut (record b' { cache = invalidate b'.cache }) update
        (same_sides-IsLaidOut P b' _ refl refl h'))
