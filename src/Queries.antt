-- ===== src/Queries.antt =====
-- The questions that the submit path asks of a book: best prices with their cache, whether a price
-- crosses, expiry, and the reference price (src/orderbook/book.rs, src/orderbook/private.rs).
use order_book_rs.Prelude.{
  ℕ, ◌+◌, ◌/◌, Bool, false, Option, none, some, List, [], ◌∷◌, ◌==◌, leb, if◌then◌else◌,
}
use order_book_rs.Prelude.Maps.{Map, lookup}
use order_book_rs.Prelude.Result.{Result, ok, err}
use order_book_rs.Types.{Side, Order}
use order_book_rs.Error.{BookError}
use order_book_rs.RejectReason.{RejectReason, of_error}
use order_book_rs.OrderState.{OrderStatus}
use order_book_rs.Clock.{now_millis}
use order_book_rs.PriceLevel.{PriceLevels}
use order_book_rs.Risk.{ReferencePriceSource, check_limit_admission, check_modify_admission}
use order_book_rs.Book.{
  Book, get_cached_best_bid, get_cached_best_ask, update_best_bid, update_best_ask, track_state,
  side_levels,
}

-- The keys of a side at its ends: the lowest price, and the highest.
abbrev pub first_key {ℓ} : {V : Type ℓ} → Map V → Option ℕ
first_key [] = none
first_key ((price, level) ∷ m) = some price

abbrev pub last_key {ℓ} : {V : Type ℓ} → Map V → Option ℕ
last_key [] = none
last_key ((price, level) ∷ []) = some price
last_key (x ∷ y ∷ m) = last_key (y ∷ m)

-- `unwrap_or(0)`
abbrev pub or_zero : Option ℕ → ℕ
or_zero none = 0
or_zero (some n) = n

module _ (P : PriceLevels) where
  unfoldable pub best_bid : Book P → Option ℕ × Book P
  best_bid b = elim (get_cached_best_bid b.cache) [
    | some price ↦ (some price, b)
    | none ↦ (last_key b.bids, record b { cache = update_best_bid b.cache (last_key b.bids) })
  ]

  unfoldable pub best_ask : Book P → Option ℕ × Book P
  best_ask b = elim (get_cached_best_ask b.cache) [
    | some price ↦ (some price, b)
    | none ↦ (first_key b.asks, record b { cache = update_best_ask b.cache (first_key b.asks) })
  ]

  -- `is_some_and(..)`
  abbrev reaches : Side → ℕ → Option ℕ → Bool
  reaches side price none = false
  reaches Side.buy price (some best) = leb best price
  reaches Side.sell price (some best) = leb price best

  -- The best price on the side that an order of the side would meet.
  unfoldable pub opposite_best : Side → Book P → Option ℕ × Book P
  unfolding best_bid best_ask
  opposite_best Side.buy b = best_ask b
  opposite_best Side.sell b = best_bid b

  unfoldable pub will_cross_market : Book P → ℕ → Side → Bool × Book P
  unfolding opposite_best
  will_cross_market b price side =
      let (best, b') = opposite_best side b in (reaches side price best, b')

  unfoldable pub market_close_for_expiry : Book P → Option ℕ
  market_close_for_expiry b = if b.has_market_close then some b.market_close_timestamp else none

  unfoldable pub has_expired : Book P → Order → Bool × Book P
  unfolding market_close_for_expiry
  has_expired b o =
      let (now, clock') = now_millis b.clock in
      (P.is_expired o.time_in_force now (market_close_for_expiry b), record b { clock = clock' })

  unfoldable pub last_trade : Book P → Option ℕ
  last_trade b = if b.has_traded then some b.last_trade_price else none

  -- The midpoint of two best prices, or the last trade.
  abbrev mid_of : Option ℕ → Option ℕ → Option ℕ → Option ℕ
  mid_of (some bid) (some ask) last = some ((bid + ask) / 2)
  mid_of none ask last = last
  mid_of (some bid) none last = last

  unfoldable pub resolve_reference_price : Book P → ReferencePriceSource → Option ℕ × Book P
  unfolding last_trade best_bid best_ask
  resolve_reference_price b ReferencePriceSource.last_trade = (last_trade b, b)
  resolve_reference_price b ReferencePriceSource.mid =
      let (bid, b') = best_bid b in
      let (ask, b'') = best_ask b' in (mid_of bid ask (last_trade b''), b'')
  resolve_reference_price b (ReferencePriceSource.fixed_price price) = (some price, b)

  -- `cfg.reference_price.and_then(..)`
  unfoldable pub reference_of : Book P → Option ReferencePriceSource → Option ℕ × Book P
  unfolding resolve_reference_price
  reference_of b none = (none, b)
  reference_of b (some source) = resolve_reference_price b source

  unfoldable pub check_risk_limit_admission :
      Book P → ℕ → ℕ → ℕ → Result BookError (Unit {0}) × Book P
  unfolding reference_of
  check_risk_limit_admission b account price quantity = elim b.risk_state.config [
    | none ↦ (ok tt, b)
    | some cfg ↦
        let (reference, b') = reference_of b cfg.reference_price in
        let (verdict, s) = check_limit_admission b'.risk_state account price quantity reference in
        (verdict, record b' { risk_state = s })
  ]

  -- A rejection is recorded in the tracker.
  unfoldable pub reject : Book P → ℕ → RejectReason → Book P
  reject b id reason = record b { tracker = track_state b.tracker id (OrderStatus.rejected reason) }

  unfoldable pub reject_with_risk : Book P → ℕ → BookError → Book P
  unfolding reject
  reject_with_risk b id e = reject b id (of_error e)

  unfoldable pub check_kill_switch_or_reject : Book P → ℕ → Result BookError (Unit {0}) × Book P
  unfolding reject
  check_kill_switch_or_reject b id =
      if b.kill_switch
      then (err BookError.kill_switch_active, reject b id RejectReason.kill_switch_active)
      else (ok tt, b)

  unfoldable pub check_kill_switch : Book P → Result BookError (Unit {0})
  check_kill_switch b = if b.kill_switch then err BookError.kill_switch_active else ok tt

  unfoldable pub check_risk_modify_admission :
      Book P → ℕ → ℕ → ℕ → ℕ → Result BookError (Unit {0}) × Book P
  unfolding reference_of
  check_risk_modify_admission b id account price quantity = elim b.risk_state.config [
    | none ↦ (ok tt, b)
    | some cfg ↦
        let (reference, b') = reference_of b cfg.reference_price in
        let (verdict, s) =
          check_modify_admission b'.risk_state id account price quantity reference in
        (verdict, record b' { risk_state = s })
  ]

  -- The first order of an id.
  unfoldable pub find_order : ℕ → List Order → Option Order
  find_order id [] = none
  find_order id (o ∷ orders) = if o.id == id then some o else find_order id orders

  -- The resting order of an id, by its location.
  unfoldable pub get_order : Book P → ℕ → Option Order
  unfolding find_order
  get_order b id = elim (lookup id b.order_locations) [
    | none ↦ none
    | some (price, side) ↦ elim (lookup price (side_levels b side)) [
      | none ↦ none
      | some level ↦ find_order id (P.snapshot_by_seq level)
    ]
  ]
