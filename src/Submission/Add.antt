-- ===== src/Submission/Add.antt =====
-- `add_order_inner` of src/orderbook/modifications.rs: the gates, the sweep, and the residual. What a
-- caller gets is the order with the report of its trades, if it wants one.
use order_book_rs.Prelude.{
  ℕ, ◌+◌, ◌-◌, ◌%◌, ◌^◌, Bool, true, false, ◌&&◌, ◌||◌, not, Option, none, some, List, ◌∷◌, ◌==◌,
  leb, ltb, if◌then◌else◌,
}
use order_book_rs.Prelude.Words.{u64_max}
use order_book_rs.Prelude.Maps.{lookup, insert, erase, upsert, contains}
use order_book_rs.Prelude.Result.{Result, ok, err}
use order_book_rs.Types.{Order, OrderKind, TakerKind}
use order_book_rs.Error.{BookError}
use order_book_rs.RejectReason.{RejectReason}
use order_book_rs.OrderState.{OrderStatus, CancelReason}
use order_book_rs.PriceLevel.{PriceLevels}
use order_book_rs.Risk.{on_admission}
use order_book_rs.Book.{
  Book, invalidate, emit_level_change, track_state, track_user_order, without, side_levels,
  put_side,
}
use order_book_rs.Orders.{quantity, total_quantity, checked_total_quantity, set_total_remaining}
use order_book_rs.Matching.Submit.{MatchOutcome, match_order_with_user_outcome, is_empty}
use order_book_rs.Queries.{
  will_cross_market, check_kill_switch_or_reject, check_risk_limit_admission, reject,
  reject_with_risk,
}
use order_book_rs.Submission.Shape.{
  ◌then_in◌, overflow_of, crossing_error, validate_order_shape, record_shape_rejection,
}

abbrev pub Answer : PriceLevels → Type 0
Answer P = Order × Option (ℕ × P.MatchResult)

module _ (P : PriceLevels) where
  open P use {
    MatchResult, trades, remaining_quantity, is_immediate, is_post_only_order, Level, new_level,
    order_count,
  }

  -- The state after a track of an order.
  abbrev pub tracked : Book P → ℕ → OrderStatus → Book P
  tracked b id status = record b { tracker = track_state b.tracker id status }

  -- What a refusal records, whatever step refused.
  unfoldable pub or_record :
      (Book P → BookError → Book P)
      → Result BookError (Unit {0}) × Book P
      → Result BookError (Unit {0}) × Book P
  or_record note (ok u, b) = (ok u, b)
  or_record note (err e, b) = (err e, note b e)

  -- The total must be representable.
  unfoldable pub check_total : Book P → Order → Result BookError (Unit {0})
  check_total b o = elim (checked_total_quantity o.kind) [
    | none ↦ err (overflow_of P o)
    | some total ↦ ok tt
  ]

  -- An id that rests already is refused without a trace in the tracker.
  unfoldable pub check_duplicate : Book P → Order → Result BookError (Unit {0})
  check_duplicate b o =
      if contains o.id b.order_locations then err (BookError.duplicate_order_id o.id) else ok tt

  -- The room of the level where a residual would rest.
  unfoldable pub check_level_room : Book P → Order → Result BookError (Unit {0}) × Book P
  unfolding reject
  check_level_room b o = elim (lookup o.price (side_levels b o.side)) [
    | none ↦ (ok tt, b)
    | some level ↦ elim (P.total_quantity level) [
      | err e ↦ (err (BookError.price_level_error e), reject P b o.id RejectReason.invalid_quantity)
      | ok total ↦ if leb (total + total_quantity o.kind) u64_max then (ok tt, b) else (
        err (
            BookError.invalid_operation
              "resting order would overflow the aggregate capacity of its level"),
        reject P b o.id RejectReason.invalid_quantity,
      )
    ]
  ]

  -- Only for an order that may rest and crosses.
  unfoldable pub check_headroom : Book P → Order → Result BookError (Unit {0}) × Book P
  unfolding will_cross_market check_level_room
  check_headroom b o =
      if is_immediate o
      then (ok tt, b)
      else (let (crosses, b') = will_cross_market P b o.price o.side in
          if crosses then check_level_room b' o else (ok tt, b'))

  -- All that comes before the sweep.
  unfoldable pub admit : Book P → Order → Result BookError (Unit {0}) × Book P
  unfolding check_kill_switch_or_reject or_record check_total check_risk_limit_admission
      reject_with_risk check_duplicate validate_order_shape record_shape_rejection check_headroom
  admit b o =
      check_kill_switch_or_reject P b o.id
      then_in (λ _ b. or_record (λ b e. record_shape_rejection P b o e) (check_total b o, b))
      then_in (λ _ b.
          or_record (λ b e. reject_with_risk P b o.id e)
            (check_risk_limit_admission P b o.user_id o.price (total_quantity o.kind)))
      then_in (λ _ b. (check_duplicate b o, b))
      then_in (λ _ b.
          or_record (λ b e. record_shape_rejection P b o e) (validate_order_shape P b o))
      then_in (λ _ b. check_headroom b o)

  -- The trade report: made if somebody wants it, under the next engine sequence number.
  unfoldable pub report_trades : Book P → MatchResult → Bool → Option (ℕ × MatchResult) × Book P
  report_trades b r want =
      if not (is_empty (trades r)) && (want || b.has_trade_listener)
      then (
        some (b.engine_seq, r),
        record b {
          engine_seq = (b.engine_seq + 1) % 2 ^ 64;
          trade_events =
              if b.has_trade_listener then (b.engine_seq, r) ∷ b.trade_events else b.trade_events;
        },
      )
      else (none, b)

  -- A set of ids gains one.
  abbrev add_id : ℕ → List ℕ → List ℕ
  add_id id ids = id ∷ without id ids

  unfoldable pub register_special : Order → Book P → Book P
  register_special o b = elim o.kind [
    | OrderKind.pegged q reference offset ↦ record b { pegged_orders = add_id o.id b.pegged_orders }
    | OrderKind.trailing_stop q trail reference ↦ record b {
      trailing_stops = add_id o.id b.trailing_stops;
    }
    | _ ↦ b
  ]

  -- The order with what is left of it.
  unfoldable pub residual : Order → ℕ → Order
  residual o remaining =
      if ltb remaining (total_quantity o.kind)
      then record o { kind = set_total_remaining o.kind remaining }
      else o

  -- `get_or_insert`
  abbrev pub level_or_new : Book P → Order → Level
  level_or_new b o = elim (lookup o.price (side_levels b o.side)) [
    | none ↦ new_level o.price
    | some l ↦ l
  ]

  abbrev pub resting_status : ℕ → ℕ → OrderStatus
  resting_status original filled =
      if ltb 0 filled then OrderStatus.partially_filled original filled else OrderStatus.opened

  -- The bookkeeping of an order that its level has admitted.
  unfoldable pub enter : Book P → Order → ℕ → ℕ → ℕ → Order → Level → Book P
  unfolding register_special
  enter b o remaining original filled admitted level =
      let b' =
        emit_level_change (put_side b o.side (upsert o.price level (side_levels b o.side))) o.side
          level in
      tracked
        (register_special o (record b' {
          order_locations = insert admitted.id (o.price, o.side) b'.order_locations;
          risk_state = on_admission b'.risk_state admitted.id o.user_id o.price remaining;
          user_orders = track_user_order o.user_id admitted.id b'.user_orders;
        }))
        o.id (resting_status original filled)

  -- A level that an admission has failed on, which goes if it is empty.
  unfoldable pub abandon : Book P → Order → Level → Book P
  abandon b o level =
      let levels = upsert o.price level (side_levels b o.side) in
      record (put_side b o.side (if order_count level == 0 then erase o.price levels else levels)) {
        cache = invalidate b.cache;
      }

  unfoldable pub rest :
      Book P → Order → ℕ → ℕ → ℕ → Option (ℕ × MatchResult) → Result BookError (Answer P) × Book P
  unfolding residual enter abandon
  rest b o remaining original filled report =
      let o' = residual o remaining in
      elim (P.add_order (level_or_new b o) o') [
        | err e ↦ (err (BookError.price_level_error e), abandon b o (level_or_new b o))
        | ok (admitted, level) ↦
            (ok (admitted, report), enter b o' remaining original filled admitted level)
      ]

  -- The order after the sweep: cancelled by self-trade prevention, filled, dropped, or rested.
  unfoldable pub conclude :
      Book P
      → Order
      → MatchOutcome P
      → Option (ℕ × MatchResult)
      → Result BookError (Answer P) × Book P
  unfolding rest
  conclude b o out report =
      let original = total_quantity o.kind in
      let remaining = remaining_quantity out.result in
      let filled = original - remaining in
      if out.taker_stp_cancelled
      then (
        err (BookError.self_trade_prevented b.stp_mode o.id o.user_id),
        tracked b o.id (OrderStatus.cancelled filled CancelReason.self_trade_prevention),
      )
      else if remaining == 0
      then (ok (o, report), tracked b o.id (OrderStatus.filled original))
      else if is_immediate o
      then (
        err (
            BookError.insufficient_liquidity o.side (quantity o.kind)
              (quantity o.kind - remaining)),
        tracked b o.id (OrderStatus.cancelled filled CancelReason.insufficient_liquidity),
      )
      else rest b o remaining original filled report

  -- The refusal of a post-only order that the sweep found to cross.
  unfoldable pub refuse_crossing : Book P → Order → Result BookError (Answer P) × Book P
  unfolding crossing_error reject
  refuse_crossing b o =
      let (e, b') = crossing_error P (reject P b o.id RejectReason.post_only_would_cross) o in
      (err e, b')

  unfoldable pub sweep_and_rest : Book P → Order → Bool → Result BookError (Answer P) × Book P
  unfolding match_order_with_user_outcome refuse_crossing report_trades conclude
  sweep_and_rest b o want =
      match_order_with_user_outcome P (record b { cache = invalidate b.cache }) o.id o.side
        (total_quantity o.kind) (some o.price) o.user_id
        (if is_post_only_order o then TakerKind.post_only else TakerKind.standard)
      then_in (λ out b.
          if out.taker_post_only_rejected
          then refuse_crossing b o
          else (let (report, b') = report_trades b out.result want in conclude b' o out report))

  unfoldable pub add_order_inner : Book P → Order → Bool → Result BookError (Answer P) × Book P
  unfolding admit sweep_and_rest
  add_order_inner b o want = admit b o then_in (λ _ b. sweep_and_rest b o want)

  -- `add_order` and `add_order_with_result`
  abbrev pub order_only : Result BookError (Answer P) × Book P → Result BookError Order × Book P
  order_only (ok (o, report), b) = (ok o, b)
  order_only (err e, b) = (err e, b)

  unfoldable pub add_order : Book P → Order → Result BookError Order × Book P
  unfolding add_order_inner
  add_order b o = order_only (add_order_inner b o false)

  unfoldable pub add_order_with_result : Book P → Order → Result BookError (Answer P) × Book P
  unfolding add_order_inner
  add_order_with_result b o = add_order_inner b o true
