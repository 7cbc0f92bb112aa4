-- ===== src/Cancel/Effects.antt =====
-- What a cancel takes away, and what it leaves.
use order_book_rs.Prelude.{
  ℕ, ◌≡◌, refl, ◌∙◌, Bool, true, false, ◌&&◌, Option, none, some, option_cases, [], ◌∷◌, ◌==◌,
  if◌then◌else◌, if_cases, Bool-cases, All, arith, inl, inr,
}
use order_book_rs.Prelude.Maps.{Map, lookup, erase, replace, lookup-erase}
use order_book_rs.Types.{Side, Order}
use order_book_rs.PriceLevel.{PriceLevels, PriceLevelLaws}
use order_book_rs.Risk.Coverage.{IsCovered, on_cancel-IsCovered}
use order_book_rs.Risk.Accounts.{IsBalanced, on_cancel-IsBalanced}
use order_book_rs.OrderState.{CancelReason}
use order_book_rs.Book.{Book, invalidate, emit_level_change, side_levels, put_side}
use order_book_rs.Cancel.{settle_level, strike, cancel_order_with_reason}

module _ (P : PriceLevels) where
  open P use {Level, cancel, order_count, level_price}

  -- A rule for the outcome of a cancel: what holds of the book that has only dropped its cached
  -- prices, and what an order that is found makes of it.
  module _ (C : Option Order × Book P → Type 0) (b : Book P) (id : ℕ) (reason : CancelReason)
      (missed : C (none, record b { cache = invalidate b.cache }))
      (found : (price : ℕ) (side : Side) (level level' : Level) (o : Order)
        → lookup id b.order_locations ≡ some (price, side)
        → lookup price (side_levels b side) ≡ some level
        → cancel level id ≡ some (o, level')
        → C (
          some o,
          strike P id reason o (
              put_side
                (emit_level_change (record b { cache = invalidate b.cache }) side level')
                side
                (settle_level P price level' (side_levels b side))),
        )) where
    pub cancel_cases : C (cancel_order_with_reason P b id reason)
    unfolding cancel_order_with_reason
    cancel_cases =
        let start : Book P = record b { cache = invalidate b.cache } in
        option_cases C (lookup id b.order_locations) _ _ (λ _. missed)
          λ (price, side) located.
            option_cases C (lookup price (side_levels start side)) _ _ (λ _. missed)
              λ level standing.
                option_cases C (cancel level id) _ _ (λ _. missed)
                  λ (o, level') taken. found price side level level' o located standing taken

  -- A level's side in a book whose levels stand at their keys.
  abbrev pub IsKeyed : Map Level → Type 0
  IsKeyed levels = All (λ (e : ℕ × Level). level_price e.1 ≡ e.0) levels

  pub erase-IsKeyed :
      (price : ℕ) (levels : Map Level) → IsKeyed levels → IsKeyed (erase price levels)
  erase-IsKeyed price [] h = tt
  erase-IsKeyed price ((p, l) ∷ levels) (h, hs) =
      if_cases IsKeyed (p == price) _ _ (λ _. erase-IsKeyed price levels hs)
        (λ _. (h, erase-IsKeyed price levels hs))

  pub replace-IsKeyed :
      (price : ℕ) (level : Level) (levels : Map Level)
      → level_price level ≡ price
      → IsKeyed levels
      → IsKeyed (replace price level levels)
  replace-IsKeyed price level [] e h = tt
  replace-IsKeyed price level ((p, l) ∷ levels) e (h, hs) =
      if_cases IsKeyed (p == price) _ _ (λ hit. (ground (arith), hs))
        (λ _. (h, replace-IsKeyed price level levels e hs))

  pub lookup-IsKeyed :
      (price : ℕ) (level : Level) (levels : Map Level)
      → IsKeyed levels
      → lookup price levels ≡ some level
      → level_price level ≡ price
  lookup-IsKeyed price level [] h e = cc
  lookup-IsKeyed price level ((p, l) ∷ levels) (h, hs) e = elim (Bool-cases (p == price)) [
    | inl hit ↦ ground arith
    | inr miss ↦ lookup-IsKeyed price level levels hs (ground arith)
  ]

  -- What the book keeps between operations: levels at their keys, counters that agree with the tracked
  -- orders, and tracked orders that are located.
  pub record IsWellFormed (b : Book P) : Type 0 where
    pub keyed_bids : IsKeyed b.bids
    pub keyed_asks : IsKeyed b.asks
    pub balanced : IsBalanced b.risk_state
    pub covered : IsCovered b.risk_state b.order_locations

  pub settle_level-IsKeyed :
      (price : ℕ) (level : Level) (levels : Map Level)
      → level_price level ≡ price
      → IsKeyed levels
      → IsKeyed (settle_level P price level levels)
  unfolding settle_level
  settle_level-IsKeyed price level levels e h =
      if_cases IsKeyed (order_count level == 0) _ _ (λ _. erase-IsKeyed price levels h)
        (λ _. replace-IsKeyed price level levels e h)

  put_side-IsWellFormed :
      (b : Book P) (id : ℕ) (reason : CancelReason) (o : Order) (side : Side) (level : Level)
      (levels : Map Level)
      → IsKeyed levels
      → IsWellFormed b
      → IsWellFormed (strike P id reason o (put_side (emit_level_change b side level) side levels))
  unfolding strike emit_level_change
  put_side-IsWellFormed b id reason o Side.buy level levels k w = record {
    keyed_bids = k;
    keyed_asks = w.keyed_asks;
    balanced = on_cancel-IsBalanced b.risk_state id w.balanced;
    covered = on_cancel-IsCovered b.risk_state id b.order_locations w.covered;
  }
  put_side-IsWellFormed b id reason o Side.sell level levels k w = record {
    keyed_bids = w.keyed_bids;
    keyed_asks = k;
    balanced = on_cancel-IsBalanced b.risk_state id w.balanced;
    covered = on_cancel-IsCovered b.risk_state id b.order_locations w.covered;
  }

  side_levels-IsKeyed : (b : Book P) (side : Side) → IsWellFormed b → IsKeyed (side_levels b side)
  side_levels-IsKeyed b Side.buy w = w.keyed_bids
  side_levels-IsKeyed b Side.sell w = w.keyed_asks

  -- A cancel keeps the book well-formed, whether or not it finds the order.
  pub cancel_order-IsWellFormed :
      (L : PriceLevelLaws P) (b : Book P) (id : ℕ) (reason : CancelReason)
      → IsWellFormed b
      → IsWellFormed (cancel_order_with_reason P b id reason).1
  cancel_order-IsWellFormed L b id reason w =
      let start : Book P = record b { cache = invalidate b.cache } in
      let w' : IsWellFormed start = record {
        keyed_bids = w.keyed_bids;
        keyed_asks = w.keyed_asks;
        balanced = w.balanced;
        covered = w.covered;
      } in
      cancel_cases (λ r. IsWellFormed r.1) b id reason w'
        λ price side level level' o located standing taken.
          put_side-IsWellFormed start id reason o side level'
            (settle_level P price level' (side_levels b side))
            (settle_level-IsKeyed price level' (side_levels b side)
              (L.cancel_price level level' o id taken
                ∙ lookup-IsKeyed price level (side_levels b side) (side_levels-IsKeyed b side w)
                    standing)
              (side_levels-IsKeyed b side w))
            w'

  abbrev pub is_found : Option Order → Bool
  is_found none = false
  is_found (some o) = true

  -- After a cancel the order that it returns is not located any more, and all other orders are located
  -- as they were; a cancel that returns nothing leaves every location.
  pub cancel_order-located :
      (b : Book P) (id : ℕ) (reason : CancelReason) (j : ℕ)
      → let (o, b') = cancel_order_with_reason P b id reason in
        lookup j b'.order_locations
        ≡ (if is_found o && id == j then none else lookup j b.order_locations)
  unfolding strike emit_level_change
  cancel_order-located b id reason j =
      cancel_cases
        (λ (o, b').
          lookup j b'.order_locations
          ≡ (if is_found o && id == j then none else lookup j b.order_locations))
        b id reason refl
        (λ price side level level' o located standing taken. lookup-erase id j b.order_locations)
