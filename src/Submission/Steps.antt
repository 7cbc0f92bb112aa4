-- ===== src/Submission/Steps.antt =====
-- The steps of the submit path's gates change the tracker, the cache, the clock and the warning of the
-- risk layer, and nothing else (src/orderbook/modifications.rs).
use order_book_rs.Prelude.{
  ℕ, ◌≡◌, refl, ◌∙◌, Option, none, some, option_cases, if_cases, ◌+◌, leb, if◌then◌else◌, arith,
}
use Prim.Native.String.{String}
use order_book_rs.Prelude.Words.{u64_max}
use order_book_rs.Orders.{total_quantity}
use order_book_rs.Prelude.Maps.{lookup}
use order_book_rs.Prelude.Result.{Result, ok, err, ◌>>◌}
use order_book_rs.Types.{Side, Order}
use order_book_rs.Error.{BookError}
use order_book_rs.RejectReason.{RejectReason}
use order_book_rs.PriceLevel.{PriceLevels}
use order_book_rs.Risk.{
  RiskState, RiskConfig, ReferencePriceSource, check_limit_admission, check_price_band,
  check_open_orders, check_notional, then_band,
}
use order_book_rs.Book.{Book, side_levels, get_cached_best_bid, get_cached_best_ask}
use order_book_rs.Queries.{
  best_bid, best_ask, opposite_best, will_cross_market, has_expired, resolve_reference_price,
  reference_of, check_risk_limit_admission, reject, check_kill_switch_or_reject,
}
use order_book_rs.Submission.Shape.{
  ◌then_in◌, check_settings, check_expiry, crossing_error, check_post_only, validate_order_shape,
  record_shape_rejection,
}
use order_book_rs.Submission.Add.{or_record, check_level_room, check_headroom}

pub check_price_band-keeps :
    (s : RiskState) (cfg : RiskConfig) (price : ℕ) (reference : Option ℕ)
    → let s' = (check_price_band s cfg price reference).1 in
      (s'.orders ≡ s.orders) × (s'.counters ≡ s.counters)
unfolding check_price_band
check_price_band-keeps s cfg price reference = ground arith

pub check_limit_admission-keeps :
    (s : RiskState) (account price quantity : ℕ) (reference : Option ℕ)
    → let s' = (check_limit_admission s account price quantity reference).1 in
      (s'.orders ≡ s.orders) × (s'.counters ≡ s.counters)
unfolding check_limit_admission
check_limit_admission-keeps s account price quantity reference =
    option_cases
      (λ (r : Result BookError (Unit {0}) × RiskState).
        (r.1.orders ≡ s.orders) × (r.1.counters ≡ s.counters))
      s.config _ _ (λ _. (refl, refl))
      λ cfg _.
        after_gates cfg
          (check_open_orders s cfg account >> check_notional s cfg account price quantity)
  where
    after_gates :
        (cfg : RiskConfig) (r : Result BookError (Unit {0}))
        → let s' = (then_band r s (check_price_band s cfg price reference)).1 in
          (s'.orders ≡ s.orders) × (s'.counters ≡ s.counters)
    after_gates cfg (ok u) = check_price_band-keeps s cfg price reference
    after_gates cfg (err e) = (refl, refl)

module _ (P : PriceLevels) (start : Book P) where
  -- The resting orders, the indices and the booked risk are those of the start.
  abbrev pub IsUntouched : Book P → Type 0
  IsUntouched b =
      (b.bids ≡ start.bids)
      × (b.asks ≡ start.asks)
      × (b.order_locations ≡ start.order_locations)
      × (b.user_orders ≡ start.user_orders)
      × (b.risk_state.orders ≡ start.risk_state.orders)
      × (b.risk_state.counters ≡ start.risk_state.counters)

  pub best_bid-IsUntouched : (b : Book P) → IsUntouched b → IsUntouched (best_bid P b).1
  unfolding best_bid
  best_bid-IsUntouched b h =
      option_cases (λ (r : Option ℕ × Book P). IsUntouched r.1) (get_cached_best_bid b.cache) _ _
        (λ _. h) (λ p _. h)

  pub best_ask-IsUntouched : (b : Book P) → IsUntouched b → IsUntouched (best_ask P b).1
  unfolding best_ask
  best_ask-IsUntouched b h =
      option_cases (λ (r : Option ℕ × Book P). IsUntouched r.1) (get_cached_best_ask b.cache) _ _
        (λ _. h) (λ p _. h)

  pub opposite_best-IsUntouched :
      (side : Side) (b : Book P) → IsUntouched b → IsUntouched (opposite_best P side b).1
  unfolding opposite_best
  opposite_best-IsUntouched Side.buy b h = best_ask-IsUntouched b h
  opposite_best-IsUntouched Side.sell b h = best_bid-IsUntouched b h

  pub reference_of-IsUntouched :
      (b : Book P) (source : Option ReferencePriceSource)
      → IsUntouched b
      → IsUntouched (reference_of P b source).1
  unfolding reference_of resolve_reference_price
  reference_of-IsUntouched b none h = h
  reference_of-IsUntouched b (some ReferencePriceSource.last_trade) h = h
  reference_of-IsUntouched b (some ReferencePriceSource.mid) h =
      best_ask-IsUntouched (best_bid P b).1 (best_bid-IsUntouched b h)
  reference_of-IsUntouched b (some (ReferencePriceSource.fixed_price p)) h = h

  pub check_risk-IsUntouched :
      (b : Book P) (account price quantity : ℕ)
      → IsUntouched b
      → IsUntouched (check_risk_limit_admission P b account price quantity).1
  unfolding check_risk_limit_admission
  check_risk-IsUntouched b account price quantity h =
      option_cases (λ (r : Result BookError (Unit {0}) × Book P). IsUntouched r.1)
        b.risk_state.config _ _ (λ _. h)
        λ cfg _.
          let (reference, b') = reference_of P b cfg.reference_price in
          let (bid, ask, loc, usr, os, cs) = reference_of-IsUntouched b cfg.reference_price h in
          let (o, c) = check_limit_admission-keeps b'.risk_state account price quantity reference in
          (bid, ask, loc, usr, o ∙ os, c ∙ cs)

  pub has_expired-IsUntouched :
      (b : Book P) (o : Order) → IsUntouched b → IsUntouched (has_expired P b o).1
  unfolding has_expired
  has_expired-IsUntouched b o h = h

  pub crossing_error-IsUntouched :
      (b : Book P) (o : Order) → IsUntouched b → IsUntouched (crossing_error P b o).1
  unfolding crossing_error
  crossing_error-IsUntouched b o h = opposite_best-IsUntouched o.side b h

  pub will_cross-IsUntouched :
      (b : Book P) (price : ℕ) (side : Side)
      → IsUntouched b
      → IsUntouched (will_cross_market P b price side).1
  unfolding will_cross_market
  will_cross-IsUntouched b price side h = opposite_best-IsUntouched side b h

  pub reject-IsUntouched :
      (b : Book P) (id : ℕ) (reason : RejectReason)
      → IsUntouched b
      → IsUntouched (reject P b id reason)
  unfolding reject
  reject-IsUntouched b id reason h = h

  pub record_shape-IsUntouched :
      (b : Book P) (o : Order) (e : BookError)
      → IsUntouched b
      → IsUntouched (record_shape_rejection P b o e)
  unfolding record_shape_rejection reject
  record_shape-IsUntouched b o (BookError.missing_user_id id) h = h
  record_shape-IsUntouched b o _ h = h

  -- Steps in sequence.
  pub then_in-IsUntouched :
      {A B : Type 0} (r : Result BookError A × Book P)
      (f : A → Book P → Result BookError B × Book P)
      → IsUntouched r.1
      → ((a : A) (b : Book P) → IsUntouched b → IsUntouched (f a b).1)
      → IsUntouched (r then_in f).1
  unfolding ◌then_in◌
  then_in-IsUntouched (ok a, b) f h k = k a b h
  then_in-IsUntouched (err e, b) f h k = h

  pub or_record-IsUntouched :
      (note : Book P → BookError → Book P) (r : Result BookError (Unit {0}) × Book P)
      → ((b : Book P) (e : BookError) → IsUntouched b → IsUntouched (note b e))
      → IsUntouched r.1
      → IsUntouched (or_record P note r).1
  unfolding or_record
  or_record-IsUntouched note (ok u, b) k h = h
  or_record-IsUntouched note (err e, b) k h = k b e h

  pub check_expiry-IsUntouched :
      (b : Book P) (o : Order) → IsUntouched b → IsUntouched (check_expiry P b o).1
  unfolding check_expiry
  check_expiry-IsUntouched b o h = has_expired-IsUntouched b o h

  pub check_post_only-IsUntouched :
      (b : Book P) (o : Order) → IsUntouched b → IsUntouched (check_post_only P b o).1
  unfolding check_post_only
  check_post_only-IsUntouched b o h =
      let R : Type 0 = Result BookError (Unit {0}) × Book P in
      let (crosses, b') = will_cross_market P b o.price o.side in
      let h' = will_cross-IsUntouched b o.price o.side h in
      if_cases (λ (r : R). IsUntouched r.1) (P.is_post_only_order o) _ _
        (λ _.
          if_cases (λ (r : R). IsUntouched r.1) crosses _ _
            (λ _. crossing_error-IsUntouched b' o h') (λ _. h'))
        (λ _. h)

  pub validate-IsUntouched :
      (b : Book P) (o : Order) → IsUntouched b → IsUntouched (validate_order_shape P b o).1
  unfolding validate_order_shape
  validate-IsUntouched b o h =
      then_in-IsUntouched _ _
        (then_in-IsUntouched _ _
          (then_in-IsUntouched (check_settings P b o, b) _ h
            (λ _ b h. check_expiry-IsUntouched b o h))
          (λ _ b h. check_post_only-IsUntouched b o h))
        (λ _ b h. h)

  pub check_level_room-IsUntouched :
      (b : Book P) (o : Order) → IsUntouched b → IsUntouched (check_level_room P b o).1
  unfolding check_level_room reject
  check_level_room-IsUntouched b o h =
      option_cases (λ (r : Result BookError (Unit {0}) × Book P). IsUntouched r.1)
        (lookup o.price (side_levels b o.side)) _ _ (λ _. h)
        (λ level _. of_total (P.total_quantity level))
    where
      of_total :
          (total : Result String ℕ)
          → IsUntouched
              (elim total as (λ _. Result BookError (Unit {0}) × Book P) [
                | err e ↦ (
                  err (BookError.price_level_error e),
                  reject P b o.id RejectReason.invalid_quantity,
                )
                | ok total ↦ if leb (total + total_quantity o.kind) u64_max then (ok tt, b) else (
                  err (
                      BookError.invalid_operation
                        "resting order would overflow the aggregate capacity of its level"),
                  reject P b o.id RejectReason.invalid_quantity,
                )
              ]).1
      of_total (err e) = h
      of_total (ok total) =
          if_cases (λ (r : Result BookError (Unit {0}) × Book P). IsUntouched r.1)
            (leb (total + total_quantity o.kind) u64_max) _ _ (λ _. h) (λ _. h)

  pub check_headroom-IsUntouched :
      (b : Book P) (o : Order) → IsUntouched b → IsUntouched (check_headroom P b o).1
  unfolding check_headroom
  check_headroom-IsUntouched b o h =
      let R : Type 0 = Result BookError (Unit {0}) × Book P in
      let (crosses, b') = will_cross_market P b o.price o.side in
      let h' = will_cross-IsUntouched b o.price o.side h in
      if_cases (λ (r : R). IsUntouched r.1) (P.is_immediate o) _ _ (λ _. h)
        (λ _.
          if_cases (λ (r : R). IsUntouched r.1) crosses _ _
            (λ _. check_level_room-IsUntouched b' o h') (λ _. h'))

  pub kill_switch-IsUntouched :
      (b : Book P) (id : ℕ) → IsUntouched b → IsUntouched (check_kill_switch_or_reject P b id).1
  unfolding check_kill_switch_or_reject
  kill_switch-IsUntouched b id h =
      if_cases (λ (r : Result BookError (Unit {0}) × Book P). IsUntouched r.1) b.kill_switch _ _
        (λ _. reject-IsUntouched b id RejectReason.kill_switch_active h) (λ _. h)
