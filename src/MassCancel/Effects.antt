-- ===== src/MassCancel/Effects.antt =====
-- What a cancel of many orders takes away, and what it leaves.
use order_book_rs.Prelude.{
  ℕ, ◌+◌, ◌≡◌, refl, ◌⊎◌, inl, inr, Bool, ◌&&◌, Option, none, some, List, [], ◌∷◌, ◌++◌, map,
  length, ltb, ◌==◌, if◌then◌else◌, if_cases, arith, All, All-map, All-append, length-append,
}
use order_book_rs.Prelude.Maps.{lookup, erase}
use order_book_rs.Types.{Side, Order}
use order_book_rs.PriceLevel.{PriceLevels, PriceLevelLaws}
use order_book_rs.OrderState.{CancelReason}
use order_book_rs.Risk.Coverage.{clear-IsCovered}
use order_book_rs.Risk.Accounts.{clear-IsBalanced}
use order_book_rs.Book.{Book, invalidate, side_levels}
use order_book_rs.Cancel.{cancel_order_with_reason}
use order_book_rs.Cancel.Effects.{
  IsWellFormed, is_found, cancel_order-located, cancel_order-IsWellFormed,
}
use order_book_rs.MassCancel.{
  MassCancelResult, result_of, collect_order_ids, resting_ids, in_range, collect_ids,
  tif_expired_at, user_ids, cancel_each, cancel_order_batch_with_reason, cancel_orders_by_side,
  cancel_orders_by_user, cancel_orders_by_price_range, evict_expired_orders, drain,
  cancel_all_orders,
}
use order_book_rs.MassCancel.Listing.{
  IsListed, lists, lists-append, AllOrders, order_total, IsDrained, IsResting,
  collect_order_ids-listed, collect_order_ids-IsResting, collect_order_ids-total, total-IsDrained,
}

module _ (P : PriceLevels) where
  -- The ids of orders that were found.
  abbrev ids_of : List (ℕ × Order) → List ℕ
  ids_of = map (λ (e : ℕ × Order). e.0)

  abbrev prepend : ℕ → Option Order → List (ℕ × Order) → List (ℕ × Order)
  prepend id found others = elim found [ none ↦ others | some o ↦ (id, o) ∷ others ]

  module _ {A : Type 0} where
    located_after :
        (j id : ℕ) (found : Option Order) (others : List (ℕ × Order))
        (before between after : Option A)
        → between ≡ (if is_found P found && id == j then none else before)
        → after ≡ (if lists j (ids_of others) then none else between)
        → after ≡ (if lists j (ids_of (prepend id found others)) then none else before)
    located_after j id none others before between after e f = ground arith
    located_after j id (some o) others before between after e f = ground arith

  cancel_each-located :
      (ids : List ℕ) (reason : CancelReason) (b : Book P) (j : ℕ)
      → let (done, b') = cancel_each P ids reason b in
        lookup j b'.order_locations
        ≡ (if lists j (ids_of done) then none else lookup j b.order_locations)
  unfolding cancel_each
  cancel_each-located [] reason b j = refl
  cancel_each-located (id ∷ ids) reason b j =
      let step = cancel_order_with_reason P b id reason in
      located_after j id step.0 (cancel_each P ids reason step.1).0 _ _ _
        (cancel_order-located P b id reason j) (cancel_each-located ids reason step.1 j)

  cancel_each-IsWellFormed :
      (L : PriceLevelLaws P) (ids : List ℕ) (reason : CancelReason) (b : Book P)
      → IsWellFormed P b
      → IsWellFormed P (cancel_each P ids reason b).1
  unfolding cancel_each
  cancel_each-IsWellFormed L [] reason b w = w
  cancel_each-IsWellFormed L (id ∷ ids) reason b w =
      cancel_each-IsWellFormed L ids reason (cancel_order_with_reason P b id reason).1
        (cancel_order-IsWellFormed P L b id reason w)

  -- A report counts the orders that it lists; these are located no more, and all others as before.
  abbrev pub Strikes : ℕ → Book P → MassCancelResult × Book P → Type 0
  Strikes j b (report, b') =
      (report.cancelled_count ≡ length report.cancelled_order_ids)
      × (lookup j b'.order_locations
          ≡ (if lists j report.cancelled_order_ids then none else lookup j b.order_locations))

  cancel_order_batch-Strikes :
      (b : Book P) (ids : List ℕ) (reason : CancelReason) (j : ℕ)
      → Strikes j b (cancel_order_batch_with_reason P b ids reason)
  unfolding cancel_order_batch_with_reason result_of
  cancel_order_batch-Strikes b ids reason j = (refl, cancel_each-located ids reason b j)

  -- Each of the three mass cancels, by side, by account and by range of prices, counts the orders that
  -- it lists, takes away the location of every one of them, and leaves all other orders located as
  -- they were.
  pub mass_cancels-Strikes :
      (b : Book P) (side : Side) (user_id min_price max_price j : ℕ)
      → Strikes j b (cancel_orders_by_side P b side)
        × Strikes j b (cancel_orders_by_user P b user_id)
        × Strikes j b (cancel_orders_by_price_range P b side min_price max_price)
  unfolding cancel_orders_by_side cancel_orders_by_user cancel_orders_by_price_range result_of
  mass_cancels-Strikes b side user_id min_price max_price j = (
    cancel_order_batch-Strikes b _ _ j,
    cancel_order_batch-Strikes (record b { user_orders = erase user_id b.user_orders }) _ _ j,
    if_cases (Strikes j b) (ltb max_price min_price) (result_of [], b)
        (cancel_order_batch_with_reason P b
          (collect_order_ids P (in_range P min_price max_price (side_levels b side)))
          CancelReason.mass_cancel_by_price_range)
        (λ _. (refl, refl)) (λ _. cancel_order_batch-Strikes b _ _ j),
  )

  cancel_all_orders-IsWellFormed :
      (b : Book P) → IsWellFormed P b → IsWellFormed P (cancel_all_orders P b).1
  unfolding cancel_all_orders drain
  cancel_all_orders-IsWellFormed b w =
      let start : Book P = record b { cache = invalidate b.cache } in
      if_cases (IsWellFormed P) (length (resting_ids P start) == 0) start
        (drain P (resting_ids P start) start)
        (λ _. record {
          keyed_bids = w.keyed_bids;
          keyed_asks = w.keyed_asks;
          balanced = w.balanced;
          covered = w.covered;
        })
        (λ _. record {
          keyed_bids = tt;
          keyed_asks = tt;
          balanced = clear-IsBalanced b.risk_state;
          covered = clear-IsCovered (ℕ × Side) b.risk_state;
        })

  cancel_order_batch-IsWellFormed :
      (L : PriceLevelLaws P) (b : Book P) (ids : List ℕ) (reason : CancelReason)
      → IsWellFormed P b
      → IsWellFormed P (cancel_order_batch_with_reason P b ids reason).1
  unfolding cancel_order_batch_with_reason
  cancel_order_batch-IsWellFormed L b ids reason w = cancel_each-IsWellFormed L ids reason b w

  -- Every cancel of many orders, and the eviction of expired ones, keeps the book well-formed: levels
  -- at their keys, risk counters that agree with the tracked orders, and, with a risk configuration, no
  -- tracked order that is not located.
  pub mass_cancels-IsWellFormed :
      (L : PriceLevelLaws P) (b : Book P) (side : Side) (user_id min_price max_price now : ℕ)
      → IsWellFormed P b
      → IsWellFormed P (cancel_all_orders P b).1
        × IsWellFormed P (cancel_orders_by_side P b side).1
        × IsWellFormed P (cancel_orders_by_user P b user_id).1
        × IsWellFormed P (cancel_orders_by_price_range P b side min_price max_price).1
        × IsWellFormed P (evict_expired_orders P b now).1
  unfolding cancel_orders_by_side cancel_orders_by_user cancel_orders_by_price_range
      evict_expired_orders
  mass_cancels-IsWellFormed L b side user_id min_price max_price now w =
      let in_band : List ℕ =
        collect_order_ids P (in_range P min_price max_price (side_levels b side)) in
      let test : Order → Bool = tif_expired_at P b now in
      (
        cancel_all_orders-IsWellFormed b w,
        cancel_order_batch-IsWellFormed L b (collect_order_ids P (side_levels b side))
            CancelReason.mass_cancel_by_side w,
        cancel_order_batch-IsWellFormed L (record b { user_orders = erase user_id b.user_orders })
            (user_ids user_id b.user_orders) CancelReason.mass_cancel_by_user
            (record {
              keyed_bids = w.keyed_bids;
              keyed_asks = w.keyed_asks;
              balanced = w.balanced;
              covered = w.covered;
            }),
        if_cases (λ (r : MassCancelResult × Book P). IsWellFormed P r.1) (ltb max_price min_price)
            (result_of [], b)
            (cancel_order_batch_with_reason P b in_band CancelReason.mass_cancel_by_price_range)
            (λ _. w)
            (λ _.
              cancel_order_batch-IsWellFormed L b in_band CancelReason.mass_cancel_by_price_range
                w),
        cancel_each-IsWellFormed L (collect_ids P test b.bids ++ collect_ids P test b.asks)
            CancelReason.time_in_force_expired b w,
      )

  -- A cancel of all orders lists every order of every level of both sides, and no other id, counts as
  -- many as there are orders on both sides, and leaves no order on either side.
  pub cancel_all_orders-drains :
      (b : Book P)
      → let (report, b') = cancel_all_orders P b in
        AllOrders P (IsListed report.cancelled_order_ids) b.bids
        × AllOrders P (IsListed report.cancelled_order_ids) b.asks
        × All (λ id. IsResting P b.bids id ⊎ IsResting P b.asks id) report.cancelled_order_ids
        × (report.cancelled_count ≡ order_total P b.bids + order_total P b.asks)
        × IsDrained P b'.bids
        × IsDrained P b'.asks
  unfolding cancel_all_orders result_of resting_ids drain
  cancel_all_orders-drains b =
      let bids = collect_order_ids P b.bids in
      let asks = collect_order_ids P b.asks in
      let start : Book P = record b { cache = invalidate b.cache } in
      let counted : length (bids ++ asks) ≡ order_total P b.bids + order_total P b.asks = omega (
        arith,
        length-append bids asks,
        collect_order_ids-total P b.bids,
        collect_order_ids-total P b.asks,
      ) in
      let emptied : IsDrained P (cancel_all_orders P b).1.bids
          × IsDrained P (cancel_all_orders P b).1.asks =
        if_cases (λ (b' : Book P). IsDrained P b'.bids × IsDrained P b'.asks)
          (length (resting_ids P start) == 0) start (drain P (resting_ids P start) start)
          (λ none_rest. (
            total-IsDrained P b.bids (ground (arith, counted)),
            total-IsDrained P b.asks (ground (arith, counted)),
          ))
          (λ _. (tt, tt)) in
      (
        collect_order_ids-listed P b.bids (bids ++ asks)
            (λ j e. ground (arith, lists-append j bids asks)),
        collect_order_ids-listed P b.asks (bids ++ asks)
            (λ j e. ground (arith, lists-append j bids asks)),
        All-append (λ id. IsResting P b.bids id ⊎ IsResting P b.asks id) bids asks
            (All-map _ _ (λ id r. inl r) bids (collect_order_ids-IsResting P b.bids))
            (All-map _ _ (λ id r. inr r) asks (collect_order_ids-IsResting P b.asks)),
        counted,
        emptied.0,
        emptied.1,
      )
