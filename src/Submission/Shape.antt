-- ===== src/Submission/Shape.antt =====
-- `validate_order_shape` and `record_shape_rejection` of src/orderbook/modifications.rs.
use order_book_rs.Prelude.{
  ℕ, ◌%◌, Bool, true, false, ◌&&◌, ◌||◌, not, Option, none, some, ◌==◌, leb, if◌then◌else◌,
}
use order_book_rs.Prelude.Result.{Result, ok, err, ◌>>◌, guard}
use order_book_rs.Types.{Order, OrderKind}
use order_book_rs.Error.{BookError}
use order_book_rs.RejectReason.{RejectReason}
use order_book_rs.OrderState.{OrderStatus, CancelReason}
use order_book_rs.PriceLevel.{PriceLevels}
use order_book_rs.Stp.{is_enabled}
use order_book_rs.Book.{Book, track_state}
use order_book_rs.Orders.{total_quantity, checked_total_quantity}
use order_book_rs.Matching.DryRun.{fok_fillable_quantity}
use order_book_rs.Queries.{or_zero, will_cross_market, opposite_best, has_expired, reject}

-- `n.is_multiple_of(unit)`, of a unit that is configured and positive.
abbrev fits_unit : Option ℕ → ℕ → Bool
fits_unit none n = true
fits_unit (some unit) n = unit == 0 || (n % unit == 0)

abbrev unit_or_zero : Option ℕ → ℕ
unit_or_zero none = 0
unit_or_zero (some unit) = unit

-- A lot check of one quantity.
unfoldable pub check_lot : Option ℕ → ℕ → Result BookError (Unit {0})
check_lot lot q = guard (fits_unit lot q) (BookError.invalid_lot_size q (unit_or_zero lot))

-- An iceberg is checked by tranche, every other kind by its total.
unfoldable pub check_lots : Option ℕ → OrderKind → Result BookError (Unit {0})
unfolding check_lot
check_lots lot (OrderKind.iceberg visible hidden) = check_lot lot visible >> check_lot lot hidden
check_lots lot kind = check_lot lot (total_quantity kind)

abbrev at_least : Option ℕ → ℕ → Bool
at_least none q = true
at_least (some low) q = leb low q

abbrev at_most : Option ℕ → ℕ → Bool
at_most none q = true
at_most (some high) q = leb q high

unfoldable pub check_size : Option ℕ → Option ℕ → ℕ → Result BookError (Unit {0})
check_size low high q =
    guard (at_least low q && at_most high q) (BookError.order_size_out_of_range q low high)

abbrev is_some {ℓ} : {A : Type ℓ} → Option A → Bool
is_some none = false
is_some (some a) = true

-- What a failed representation check reports.
abbrev pub overflow_of : (P : PriceLevels) → Order → BookError
overflow_of P o = BookError.quantity_overflow (P.visible_quantity o) (P.hidden_quantity o)

-- A result with the book as it is left.
infixl 5 ◌then_in◌
unfoldable pub ◌then_in◌ :
    {P : PriceLevels} {A B : Type 0}
    → Result BookError A × Book P
    → (A → Book P → Result BookError B × Book P)
    → Result BookError B × Book P
(ok a, b) then_in f = f a b
(err e, b) then_in f = (err e, b)

module _ (P : PriceLevels) where
  open P use {is_post_only_order, is_fill_or_kill}

  -- The checks that the book's settings decide alone, in the order of the source.
  unfoldable pub check_settings : Book P → Order → Result BookError (Unit {0})
  unfolding check_lots check_size
  check_settings b o =
      guard (is_some (checked_total_quantity o.kind)) (overflow_of P o)
      >> guard (not (is_enabled b.stp_mode && (o.user_id == 0))) (BookError.missing_user_id o.id)
      >> guard (fits_unit b.tick_size o.price)
          (BookError.invalid_tick_size o.price (unit_or_zero b.tick_size))
      >> check_lots b.lot_size o.kind
      >> check_size b.min_order_size b.max_order_size (total_quantity o.kind)

  unfoldable pub check_expiry : Book P → Order → Result BookError (Unit {0}) × Book P
  unfolding has_expired
  check_expiry b o =
      let (expired, b') = has_expired P b o in
      (if expired then err (BookError.invalid_operation "Order has already expired") else ok tt, b')

  -- The refusal of a price that crosses, with the best price that it meets.
  unfoldable pub crossing_error : Book P → Order → BookError × Book P
  unfolding opposite_best
  crossing_error b o =
      let (best, b') = opposite_best P o.side b in
      (BookError.price_crossing o.price o.side (or_zero best), b')

  unfoldable pub check_post_only : Book P → Order → Result BookError (Unit {0}) × Book P
  unfolding will_cross_market crossing_error
  check_post_only b o =
      if is_post_only_order o
      then (let (crosses, b') = will_cross_market P b o.price o.side in
          let (e, b'') = crossing_error b' o in if crosses then (err e, b'') else (ok tt, b'))
      else (ok tt, b)

  unfoldable pub check_fill_or_kill : Book P → Order → Result BookError (Unit {0})
  unfolding fok_fillable_quantity
  check_fill_or_kill b o =
      let total = total_quantity o.kind in
      let fillable = fok_fillable_quantity P b o.side total (some o.price) o.user_id o.id in
      if is_fill_or_kill o
      then guard (leb total fillable) (BookError.insufficient_liquidity o.side total fillable)
      else ok tt

  unfoldable pub validate_order_shape : Book P → Order → Result BookError (Unit {0}) × Book P
  unfolding check_settings check_expiry check_post_only check_fill_or_kill
  validate_order_shape b o =
      (check_settings b o, b)
      then_in (λ _ b. check_expiry b o)
      then_in (λ _ b. check_post_only b o)
      then_in (λ _ b. (check_fill_or_kill b o, b))

  -- The terminal state of each kind of refusal; some leave none.
  unfoldable pub record_shape_rejection : Book P → Order → BookError → Book P
  unfolding reject
  record_shape_rejection b o (BookError.missing_user_id id) =
      reject P b o.id RejectReason.missing_user_id
  record_shape_rejection b o (BookError.quantity_overflow v h) =
      reject P b o.id RejectReason.invalid_quantity
  record_shape_rejection b o (BookError.invalid_tick_size p t) =
      reject P b o.id RejectReason.invalid_price
  record_shape_rejection b o (BookError.invalid_lot_size q l) =
      reject P b o.id RejectReason.invalid_quantity
  record_shape_rejection b o (BookError.order_size_out_of_range q l h) =
      reject P b o.id RejectReason.order_size_out_of_range
  record_shape_rejection b o (BookError.price_crossing p s q) =
      reject P b o.id RejectReason.post_only_would_cross
  record_shape_rejection b o (BookError.insufficient_liquidity s r a) = record b {
    tracker =
        track_state b.tracker o.id (OrderStatus.cancelled 0 CancelReason.insufficient_liquidity);
  }
  record_shape_rejection b o _ = b
