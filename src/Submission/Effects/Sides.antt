-- ===== src/Submission/Effects/Sides.antt =====
-- What a submission does to the sides of the book (`add_order_inner`).
use order_book_rs.Prelude.{
  ltb, ℕ, ◌≡◌, refl, sym, ◌∙◌, Bool, Option, none, some, ◌==◌, if◌then◌else◌, if_cases,
}
use order_book_rs.Prelude.Maps.{Map, lookup, erase, upsert}
use order_book_rs.Prelude.Result.{Result}
use order_book_rs.Types.{Order, TakerKind}
use order_book_rs.Error.{BookError}
use order_book_rs.PriceLevel.{PriceLevels, PriceLevelLaws}
use order_book_rs.Book.{Book, invalidate, emit_level_change, side_levels, put_side}
use order_book_rs.Orders.{total_quantity}
use order_book_rs.Cancel.Effects.{lookup-IsKeyed}
use order_book_rs.Layout.{
  IsSide, IsLaidOut, erase-IsSide, upsert-IsSide, side_levels-IsSide, put_side-IsLaidOut,
  same_sides-IsLaidOut,
}
use order_book_rs.Matching.Budget.{MatchMode}
use order_book_rs.Matching.Submit.{match_order_with_user_outcome}
use order_book_rs.Matching.Effects.Sides.{match_order_inner-IsLaidOut}
use order_book_rs.Submission.Add.{
  Answer, admit, report_trades, residual, enter, abandon, rest, refuse_crossing, sweep_and_rest,
  add_order_inner, level_or_new,
}
use order_book_rs.Submission.Gate.{admit-IsUntouched}
use order_book_rs.Submission.Effects.{
  then_in-Holds, register_special-same, rest_cases, conclude_cases, report_trades-same,
  refuse_crossing-same,
}

module _ (P : PriceLevels) where
  open P use {Level, level_price, MatchResult, trades}

  module _ (L : PriceLevelLaws P) where
    level_or_new-price :
        (b : Book P) (o : Order) → IsLaidOut P b → level_price (level_or_new P b o) ≡ o.price
    level_or_new-price b o h = of_lookup (lookup o.price (side_levels b o.side)) refl
      where
        of_lookup :
            (found : Option Level)
            → lookup o.price (side_levels b o.side) ≡ found
            → level_price (elim found as (λ _. Level) [ none ↦ P.new_level o.price | some l ↦ l ])
              ≡ o.price
        of_lookup none e = L.price-new o.price
        of_lookup (some l) e =
            lookup-IsKeyed P o.price l (side_levels b o.side)
              (side_levels-IsSide P b o.side h).keyed e

    enter-IsLaidOut :
        (b : Book P) (o : Order) (remaining original filled : ℕ) (admitted : Order) (level : Level)
        → level_price level ≡ o.price
        → IsLaidOut P b
        → IsLaidOut P (enter P b o remaining original filled admitted level)
    unfolding enter emit_level_change
    enter-IsLaidOut b o remaining original filled admitted level e h =
        same_sides-IsLaidOut P (put_side b o.side (upsert o.price level (side_levels b o.side))) _
          (register_special-same P (λ b. b.bids) o _ (λ ids. refl) (λ ids. refl))
          (register_special-same P (λ b. b.asks) o _ (λ ids. refl) (λ ids. refl))
          (put_side-IsLaidOut P b o.side _
            (upsert-IsSide P o.price level _ e (side_levels-IsSide P b o.side h)) h)

    abandon-IsLaidOut :
        (b : Book P) (o : Order) → IsLaidOut P b → IsLaidOut P (abandon P b o (level_or_new P b o))
    unfolding abandon
    abandon-IsLaidOut b o h =
        let level = level_or_new P b o in
        let levels = upsert o.price level (side_levels b o.side) in
        let s : IsSide P levels =
          upsert-IsSide P o.price level _ (level_or_new-price b o h)
            (side_levels-IsSide P b o.side h) in
        let kept : Map Level = if P.order_count level == 0 then erase o.price levels else levels in
        same_sides-IsLaidOut P (put_side b o.side kept) _ refl refl (
          put_side-IsLaidOut P b o.side kept
            (if_cases (IsSide P) (P.order_count level == 0) _ _
              (λ _. erase-IsSide P o.price levels s) (λ _. s))
            h)

    residual-price : (o : Order) (remaining : ℕ) → (residual P o remaining).price ≡ o.price
    unfolding residual
    residual-price o remaining =
        if_cases (λ (x : Order). x.price ≡ o.price) (ltb remaining (total_quantity o.kind)) _ _
          (λ _. refl) (λ _. refl)

    rest-IsLaidOut :
        (b : Book P) (o : Order) (remaining original filled : ℕ) (report : Option (ℕ × MatchResult))
        → IsLaidOut P b
        → IsLaidOut P (rest P b o remaining original filled report).1
    rest-IsLaidOut b o remaining original filled report h =
        rest_cases P (λ r. IsLaidOut P r.1) b o remaining original filled report
          (λ e. abandon-IsLaidOut b o h)
          (λ admitted level a.
            enter-IsLaidOut b (residual P o remaining) remaining original filled admitted level
              (L.price-add_order (level_or_new P b o) level _ admitted a
                ∙ (level_or_new-price b o h ∙ sym (residual-price o remaining)))
              h)

    sweep_and_rest-IsLaidOut :
        (b : Book P) (o : Order) (want : Bool)
        → IsLaidOut P b
        → IsLaidOut P (sweep_and_rest P b o want).1
    unfolding sweep_and_rest match_order_with_user_outcome
    sweep_and_rest-IsLaidOut b o want h =
        then_in-Holds P (IsLaidOut P) _ _
          (match_order_inner-IsLaidOut P L (record b { cache = invalidate b.cache }) o.id o.side
            (MatchMode.base_qty (total_quantity o.kind) (some o.price)) o.user_id
            (if P.is_post_only_order o then TakerKind.post_only else TakerKind.standard)
            (record { bid_side = h.bid_side; ask_side = h.ask_side }))
          λ out b' h'.
            if_cases (λ (r : Result BookError (Answer P) × Book P). IsLaidOut P r.1)
              out.taker_post_only_rejected _ _
              (λ _.
                let same = refuse_crossing-same P b' o in
                same_sides-IsLaidOut P b' (refuse_crossing P b' o).1 same.0 same.1 h')
              (λ _.
                let (report, b'') = report_trades P b' out.result want in
                let h'' : IsLaidOut P b'' =
                  same_sides-IsLaidOut P b' b''
                    (report_trades-same P (λ b. b.bids) b' out.result want (λ seq events. refl))
                    (report_trades-same P (λ b. b.asks) b' out.result want (λ seq events. refl))
                    h' in
                conclude_cases P (λ r. IsLaidOut P r.1) b'' o out report
                  (λ e t. record { bid_side = h''.bid_side; ask_side = h''.ask_side })
                  (λ t. record { bid_side = h''.bid_side; ask_side = h''.ask_side })
                  (λ remaining original filled.
                    rest-IsLaidOut b'' o remaining original filled report h''))

    -- A submission, accepted or not, leaves the sides of the book laid out.
    pub add_order_inner-IsLaidOut :
        (b : Book P) (o : Order) (want : Bool)
        → IsLaidOut P b
        → IsLaidOut P (add_order_inner P b o want).1
    unfolding add_order_inner
    add_order_inner-IsLaidOut b o want h =
        let same = admit-IsUntouched P b o in
        then_in-Holds P (IsLaidOut P) (admit P b o) _
          (same_sides-IsLaidOut P b (admit P b o).1 same.0 same.1 h)
          (λ _ b' h'. sweep_and_rest-IsLaidOut b' o want h')
