-- ===== src/Repricing/Passes/Effects.antt =====
-- What a re-pricing of all special orders does to the book.
use order_book_rs.Prelude.{
  ℕ, ◌≡◌, refl, sym, true, Option, none, some, List, [], ◌∷◌, option_cases, subst,
}
use order_book_rs.Prelude.Result.{Result, ok, err}
use order_book_rs.Types.{Side, Order, OrderKind}
use order_book_rs.Error.{BookError}
use order_book_rs.PriceLevel.{PriceLevels, PriceLevelLaws}
use order_book_rs.Book.{Book, PriceLevelCache, get_cached_best_bid, get_cached_best_ask}
use order_book_rs.Queries.{best_bid, best_ask, opposite_best, get_order, check_kill_switch}
use order_book_rs.Submission.Shape.{◌then_in◌}
use order_book_rs.Submission.Steps.{IsUntouched}
use order_book_rs.Modify.{OrderUpdate, update_order, is_modify}
use order_book_rs.Layout.{IsLaidOut, same_sides-IsLaidOut}
use order_book_rs.Layout.Updates.{update_order-IsLaidOut}
use order_book_rs.Repricing.Passes.{
  Tally, settle, stop_read, stop_move_in, reprice_pegs, reprice_found, reprice_one, reprice_each,
  unregister_pegged_order, unregister_trailing_stop, market_of, reprice_pegged_collecting,
  reprice_trailing_collecting, reprice_special_orders,
}

module _ (P : PriceLevels) where
  -- What a pass has to keep: reads of the best prices, the sets of special orders, the updates to a new
  -- price, and the start of a count.
  pub record IsKept (S : Tally × Book P → Type 0) : Type 0 where
    pub bid : (t : Tally) (b : Book P) → S (t, b) → S (t, (best_bid P b).1)
    pub ask : (t : Tally) (b : Book P) → S (t, b) → S (t, (best_ask P b).1)
    pub pegs : (id : ℕ) (t : Tally) (b : Book P) → S (t, b) → S (t, unregister_pegged_order P id b)
    pub stops :
        (id : ℕ) (t : Tally) (b : Book P) → S (t, b) → S (t, unregister_trailing_stop P id b)
    pub updates :
        (id price : ℕ) (t : Tally) (b : Book P)
        → S (t, b)
        → S (settle P id price t (update_order P b (OrderUpdate.update_price id price)))
    pub restart :
        (t : Tally) (b : Book P) → S (t, b) → S (record { repriced = 0; failed = t.failed }, b)

  module _ (S : Tally × Book P → Type 0) (K : IsKept S) where
    module _ (price_of : Book P → Order → Option ℕ × Book P) (unregister : ℕ → Book P → Book P)
        (prices : (o : Order) (t : Tally) (b : Book P) → S (t, b) → S (t, (price_of b o).1))
        (unregisters : (id : ℕ) (t : Tally) (b : Book P) → S (t, b) → S (t, unregister id b)) where
      reprice_found-keeps :
          (id : ℕ) (t : Tally) (found : Option ℕ × Book P)
          → S (t, found.1)
          → S (reprice_found P price_of unregister id t found)
      unfolding reprice_found
      reprice_found-keeps id t (none, b) h = h
      reprice_found-keeps id t (some price, b) h = K.updates id price t b h

      reprice_one-keeps :
          (id : ℕ) (s : Tally × Book P) → S s → S (reprice_one P price_of unregister id s)
      unfolding reprice_one
      reprice_one-keeps id (t, b) h =
          option_cases S (get_order P b id) _ _ (λ _. unregisters id t b h)
            (λ o _. reprice_found-keeps id t (price_of b o) (prices o t b h))

      reprice_each-keeps :
          (ids : List ℕ) (s : Tally × Book P) → S s → S (reprice_each P price_of unregister ids s)
      unfolding reprice_each
      reprice_each-keeps [] s h = h
      reprice_each-keeps (id ∷ ids) s h = reprice_each-keeps ids _ (reprice_one-keeps id s h)

    stop_read-keeps :
        (o : Order) (kind : OrderKind) (t : Tally) (b : Book P)
        → S (t, b)
        → S (t, (stop_read P o kind b).1)
    unfolding stop_read opposite_best
    stop_read-keeps o (OrderKind.standard q) t b h = h
    stop_read-keeps o (OrderKind.post_only q) t b h = h
    stop_read-keeps o (OrderKind.market_to_limit q) t b h = h
    stop_read-keeps o (OrderKind.trailing_stop q trail reference) t b h = of_side o.side
      where
        of_side : (side : Side) → S (t, (opposite_best P side b).1)
        of_side Side.buy = K.ask t b h
        of_side Side.sell = K.bid t b h
    stop_read-keeps o (OrderKind.pegged q reference offset) t b h = h
    stop_read-keeps o (OrderKind.iceberg q hidden) t b h = h
    stop_read-keeps o (OrderKind.reserve q hidden amount auto) t b h = h

    module _ (by_text : List ℕ → List ℕ) (mean : ℕ → ℕ → ℕ) where
      reprice_pegs-keeps :
          (ids : List ℕ) (t : Tally) (b : Book P)
          → S (t, b)
          → S (reprice_pegs P by_text mean ids t.failed b)
      unfolding reprice_pegs market_of
      reprice_pegs-keeps [] t b h = K.restart t b h
      reprice_pegs-keeps (id ∷ ids) t b h =
          reprice_each-keeps _ (unregister_pegged_order P) (λ o t b k. k) K.pegs (id ∷ ids) _
            (K.restart t _ (K.ask t _ (K.bid t b h)))

      trailing-keeps :
          (t : Tally) (b : Book P)
          → S (t, b)
          → S (reprice_trailing_collecting P by_text mean t.failed b)
      unfolding reprice_trailing_collecting stop_move_in
      trailing-keeps t b h =
          reprice_each-keeps (stop_move_in P) (unregister_trailing_stop P)
            (λ o t b k. stop_read-keeps o o.kind t b k) K.stops (by_text b.trailing_stops) _
            (K.restart t b h)

      -- Both passes of a re-pricing of all special orders.
      passes-keep :
          (b : Book P)
          → S (record { repriced = 0; failed = [] }, b)
          → let pegged = reprice_pegged_collecting P by_text mean [] b in
            S pegged × S (reprice_trailing_collecting P by_text mean pegged.0.failed pegged.1)
      unfolding reprice_pegged_collecting
      passes-keep b h =
          let first =
            reprice_pegs-keeps (by_text b.pegged_orders) (record { repriced = 0; failed = [] }) b
              h in
          (first, trailing-keeps _ _ first)

  -- A read of a best price changes the cache at most.
  best_bid-cached :
      (Q : Book P → Type 0) (b : Book P)
      → ((c : PriceLevelCache) → Q (record b { cache = c }))
      → Q (best_bid P b).1
  unfolding best_bid
  best_bid-cached Q b f =
      option_cases (λ (r : Option ℕ × Book P). Q r.1) (get_cached_best_bid b.cache) _ _ (λ _. f _)
        (λ a _. f b.cache)

  best_ask-cached :
      (Q : Book P → Type 0) (b : Book P)
      → ((c : PriceLevelCache) → Q (record b { cache = c }))
      → Q (best_ask P b).1
  unfolding best_ask
  best_ask-cached Q b f =
      option_cases (λ (r : Option ℕ × Book P). Q r.1) (get_cached_best_ask b.cache) _ _ (λ _. f _)
        (λ a _. f b.cache)

  settle-book :
      (Q : Book P → Type 0) (id price : ℕ) (t : Tally)
      (r : Result BookError (Option Order) × Book P)
      → Q r.1
      → Q (settle P id price t r).1
  unfolding settle
  settle-book Q id price t (ok o, b) h = h
  settle-book Q id price t (err e, b) h = h

  laid : PriceLevelLaws P → IsKept (λ s. IsLaidOut P s.1)
  unfolding unregister_pegged_order unregister_trailing_stop
  laid L = record {
    bid = λ t b h. best_bid-cached (IsLaidOut P) b (λ c. same_sides-IsLaidOut P b _ refl refl h);
    ask = λ t b h. best_ask-cached (IsLaidOut P) b (λ c. same_sides-IsLaidOut P b _ refl refl h);
    pegs = λ id t b h. same_sides-IsLaidOut P b _ refl refl h;
    stops = λ id t b h. same_sides-IsLaidOut P b _ refl refl h;
    updates = λ id price t b h.
        settle-book (IsLaidOut P) id price t _
          (update_order-IsLaidOut P L b (OrderUpdate.update_price id price) h);
    restart = λ t b h. h;
  }

  -- A re-pricing of all special orders leaves both sides of the book laid out: each level stands at its
  -- own price, and the prices of a side ascend.
  pub reprice_special_orders-IsLaidOut :
      PriceLevelLaws P
      → (by_text : List ℕ → List ℕ) (mean : ℕ → ℕ → ℕ) (b : Book P) → IsLaidOut P b
      → IsLaidOut P (reprice_special_orders P by_text mean b).1
  unfolding reprice_special_orders
  reprice_special_orders-IsLaidOut L by_text mean b h =
      (passes-keep (λ s. IsLaidOut P s.1) (laid L) by_text mean b h).1

  -- No order has been re-priced, and the switch, both sides, the indices and the risk state are as before.
  abbrev IsHalted : Book P → Tally × Book P → Type 0
  IsHalted start (t, b) = (t.repriced ≡ 0) × (b.kill_switch ≡ true) × IsUntouched P start b

  update_price-halted :
      (b : Book P) (id price : ℕ)
      → b.kill_switch ≡ true
      → update_order P b (OrderUpdate.update_price id price) ≡ (err BookError.kill_switch_active, b)
  unfolding update_order is_modify check_kill_switch ◌then_in◌
  update_price-halted b id price h = rw (is_modify, check_kill_switch, h) refl

  halted : (start : Book P) → IsKept (IsHalted start)
  unfolding unregister_pegged_order unregister_trailing_stop settle
  halted start = record {
    bid = λ t b h. best_bid-cached (λ b. IsHalted start (t, b)) b (λ c. h);
    ask = λ t b h. best_ask-cached (λ b. IsHalted start (t, b)) b (λ c. h);
    pegs = λ id t b h. h;
    stops = λ id t b h. h;
    updates = λ id price t b h.
        subst (λ r. IsHalted start (settle P id price t r))
          (sym (update_price-halted b id price h.1)) h;
    restart = λ t b h. (refl, h.1, h.2);
  }

  -- While the kill switch is on, a re-pricing of all special orders re-prices none, and leaves both sides
  -- of the book, the indices and the booked risk as they are.
  pub reprice_special_orders-halts :
      (by_text : List ℕ → List ℕ) (mean : ℕ → ℕ → ℕ) (b : Book P)
      → b.kill_switch ≡ true
      → let (r, b') = reprice_special_orders P by_text mean b in
        (r.pegged_orders_repriced ≡ 0) × (r.trailing_stops_repriced ≡ 0) × IsUntouched P b b'
  unfolding reprice_special_orders
  reprice_special_orders-halts by_text mean b h =
      let (pegged, trailing) =
        passes-keep (IsHalted b) (halted b) by_text mean b
          (refl, h, (refl, refl, refl, refl, refl, refl)) in
      (pegged.0, trailing.0, trailing.2)
