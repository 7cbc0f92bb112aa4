-- ===== src/Modify/Effects.antt =====
-- What the cancel among the updates leaves as it was (src/orderbook/modifications.rs, `update_order`).
use order_book_rs.Prelude.{
  ℕ, ◌≡◌, refl, Bool, true, false, Option, none, some, ◌==◌, ◌&&◌, if◌then◌else◌, if_cases,
  option_cases, arith,
}
use order_book_rs.Prelude.Maps.{lookup, lookup-erase}
use order_book_rs.Prelude.Result.{Result, ok, err}
use order_book_rs.Types.{Side, Order}
use order_book_rs.Error.{BookError}
use order_book_rs.PriceLevel.{PriceLevels}
use order_book_rs.Book.{Book, invalidate, emit_level_change, side_levels}
use order_book_rs.Queries.{get_order}
use order_book_rs.Submission.Shape.{◌then_in◌}
use order_book_rs.Modify.{
  OrderUpdate, is_modify, take_from_level, do_cancel, dispatch, update_order,
}

module _ (P : PriceLevels) where
  -- Whether an update has answered with an order.
  abbrev pub gives_order : Result BookError (Option Order) → Bool
  gives_order (ok (some o)) = true
  gives_order (ok none) = false
  gives_order (err e) = false

  -- What the cancel by `cancel_order` would change beside the levels and the indices.
  abbrev Forgotten : Book P → Book P → Type 0
  Forgotten b b' =
      (b'.risk_state ≡ b.risk_state)
      × (b'.tracker ≡ b.tracker)
      × (b'.pegged_orders ≡ b.pegged_orders)
      × (b'.trailing_stops ≡ b.trailing_stops)
      × (b'.order_locations ≡ b.order_locations)

  take_from_level-Forgotten :
      (b : Book P) (id price : ℕ) (side : Side) → Forgotten b (take_from_level P b id price side)
  unfolding take_from_level emit_level_change
  take_from_level-Forgotten b id price side =
      let same : Forgotten b b = (refl, refl, refl, refl, refl) in
      option_cases (Forgotten b) (lookup price (side_levels b side)) _ _ (λ _. same)
        (λ level _.
          option_cases (Forgotten b) (P.cancel level id) _ _
            (λ _.
              if_cases (Forgotten b) (P.order_count level == 0) _ _
                (λ _. (refl, refl, refl, refl, refl)) (λ _. same))
            (λ found _. (refl, refl, refl, refl, refl)))

  -- The cancel among the updates takes away the location of the order that it returns, and leaves the
  -- risk counters, the order's tracked state and its registration for re-pricing as they were.
  pub update_order-leaks :
      (b : Book P) (id j : ℕ)
      → let (r, b') = update_order P b (OrderUpdate.cancel id) in
        (lookup j b'.order_locations
          ≡ (if gives_order r && id == j then none else lookup j b.order_locations))
        × (b'.risk_state ≡ b.risk_state)
        × (b'.tracker ≡ b.tracker)
        × (b'.pegged_orders ≡ b.pegged_orders)
        × (b'.trailing_stops ≡ b.trailing_stops)
  unfolding update_order dispatch is_modify do_cancel ◌then_in◌
  update_order-leaks b id j =
      let start : Book P = record b { cache = invalidate b.cache } in
      let C : Result BookError (Option Order) × Book P → Type 0 = λ (r, b').
        (lookup j b'.order_locations
          ≡ (if gives_order r && id == j then none else lookup j b.order_locations))
        × (b'.risk_state ≡ b.risk_state)
        × (b'.tracker ≡ b.tracker)
        × (b'.pegged_orders ≡ b.pegged_orders)
        × (b'.trailing_stops ≡ b.trailing_stops) in
      option_cases C (lookup id b.order_locations) _ _ (λ _. (refl, refl, refl, refl, refl))
        (λ (price, side) _.
          option_cases C (get_order P start id) _ _ (λ _. (refl, refl, refl, refl, refl))
            (λ o _.
              let f = take_from_level-Forgotten start id price side in
              (
                ground (
                  arith,
                  lookup-erase id j (take_from_level P start id price side).order_locations,
                  f.4,
                ),
                f.0,
                f.1,
                f.2,
                f.3,
              )))
