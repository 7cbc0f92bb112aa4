-- ===== src/Submission/Residual.antt =====
-- The quantity of an accepted order: traded, or resting (src/orderbook/modifications.rs,
-- `add_order_inner`).
use order_book_rs.Prelude.{
  ℕ, ◌+◌, ◌-◌, ◌≤◌, ◌≡◌, refl, sym, ap, subst, ◌∙◌, true, ◌&&◌, not, Option, none, some, List, [],
  ◌∷◌, ◌==◌, ◌⊎◌, inl, inr, if◌then◌else◌, if_cases, if_true, if_false, ltb, sum_of, arith,
  Bool-cases, ==_refl,
}
use Prim.Native.String.{String}
use order_book_rs.Prelude.Words.{u64_max}
use order_book_rs.Prelude.Maps.{lookup, lookup-insert}
use order_book_rs.Prelude.Result.{Result, ok, err}
use order_book_rs.Types.{Order, OrderKind, TakerKind}
use order_book_rs.Error.{BookError}
use order_book_rs.PriceLevel.{PriceLevels, PriceLevelLaws}
use order_book_rs.Book.{Book, invalidate, without}
use order_book_rs.Orders.{total_quantity, checked_total_quantity}
use order_book_rs.Orders.Tranches.{set_total_remaining-total}
use order_book_rs.Matching.Submit.{MatchOutcome, is_empty, match_order_with_user_outcome}
use order_book_rs.Matching.Conserve.Quantity.{match_order_inner-accounts}
use order_book_rs.Submission.Shape.{◌then_in◌}
use order_book_rs.Submission.Add.{
  Answer, admit, report_trades, register_special, residual, enter, rest, conclude, refuse_crossing,
  sweep_and_rest, add_order_inner, level_or_new, abandon, add_order_with_result,
}

module _ (P : PriceLevels) where
  open P use {trades, trade_quantity, remaining_quantity, MatchResult, Level}

  -- The traded quantity of a report.
  abbrev pub traded : Option (ℕ × MatchResult) → ℕ
  traded none = 0
  traded (some (seq, r)) = sum_of trade_quantity (trades r)

  -- Filled in full, or located on the book with exactly what was not traded.
  abbrev pub IsAccounted : ℕ → Result BookError (Answer P) × Book P → Type 0
  IsAccounted total (ok (o, report), b) =
      (traded report ≡ total)
      ⊎ ((traded report + total_quantity o.kind ≡ total)
          × (lookup o.id b.order_locations ≡ some (o.price, o.side)))
  IsAccounted total (err e, b) = Unit

  then_in-IsAccounted :
      {A : Type 0} (total : ℕ) (r : Result BookError A × Book P)
      (f : A → Book P → Result BookError (Answer P) × Book P)
      → ((a : A) (b : Book P) → r.0 ≡ ok a → IsAccounted total (f a b))
      → IsAccounted total (r then_in f)
  unfolding ◌then_in◌
  then_in-IsAccounted total (ok a, b) f h = h a b refl
  then_in-IsAccounted total (err e, b) f h = tt

  no_trade_sum : (ts : List P.Trade) → is_empty ts ≡ true → sum_of trade_quantity ts ≡ 0
  no_trade_sum [] e = refl
  no_trade_sum (t ∷ ts) e = cc

  report_trades-traded :
      (b : Book P) (r : MatchResult)
      → traded (report_trades P b r true).0 ≡ sum_of trade_quantity (trades r)
  unfolding report_trades
  report_trades-traded b r =
      let R : Type 0 = Option (ℕ × MatchResult) × Book P in
      elim (Bool-cases (is_empty (trades r))) [
        | inl nothing ↦
            if_false (λ (x : R). traded x.0 ≡ sum_of trade_quantity (trades r))
              (not (is_empty (trades r)) && true) _ _ (rw nothing refl)
              (sym (no_trade_sum (trades r) nothing))
        | inr something ↦
            if_true (λ (x : R). traded x.0 ≡ sum_of trade_quantity (trades r))
              (not (is_empty (trades r)) && true) _ _ (rw something refl) refl
      ]

  register_special-locations :
      (o : Order) (b : Book P) → (register_special P o b).order_locations ≡ b.order_locations
  unfolding register_special
  register_special-locations o b = of_kind o.kind
    where
      of_kind :
          (kind : OrderKind)
          → (elim kind as (λ _. Book P) [
            | OrderKind.pegged q reference offset ↦ record b {
              pegged_orders = o.id ∷ without o.id b.pegged_orders;
            }
            | OrderKind.trailing_stop q trail reference ↦ record b {
              trailing_stops = o.id ∷ without o.id b.trailing_stops;
            }
            | _ ↦ b
          ]).order_locations
            ≡ b.order_locations
      of_kind (OrderKind.pegged q reference offset) = refl
      of_kind _ = refl

  enter-located :
      (b : Book P) (o : Order) (remaining original filled : ℕ) (level : Level)
      → lookup o.id (enter P b o remaining original filled o level).order_locations
        ≡ some (o.price, o.side)
  unfolding enter
  enter-located b o remaining original filled level =
      ap (λ m. lookup o.id m) (register_special-locations o _)
      ∙ lookup-insert o.id o.id (o.price, o.side) _
      ∙ if_true (λ x. x ≡ some (o.price, o.side)) (o.id == o.id) _ _ (==_refl o.id) refl

  residual-total :
      (o : Order) (total remaining : ℕ)
      → checked_total_quantity o.kind ≡ some total
      → remaining ≤ total
      → total ≤ u64_max
      → total_quantity (residual P o remaining).kind ≡ remaining
  unfolding residual
  residual-total o total remaining e le fits =
      let (same, new) = set_total_remaining-total o.kind total remaining e le fits in
      if_cases (λ (x : Order). total_quantity x.kind ≡ remaining)
        (ltb remaining (total_quantity o.kind)) _ _ (λ _. new) (λ all. ground (arith))

  module _ (L : PriceLevelLaws P) (o : Order) (total : ℕ)
      (e : checked_total_quantity o.kind ≡ some total) (fits : total ≤ u64_max) where
    same_total : total_quantity o.kind ≡ total
    same_total = (set_total_remaining-total o.kind total total e (omega arith) fits).0

    rest-IsAccounted :
        (b : Book P) (remaining original filled : ℕ) (report : Option (ℕ × MatchResult))
        → traded report + remaining ≡ total
        → IsAccounted total (rest P b o remaining original filled report)
    unfolding rest
    rest-IsAccounted b remaining original filled report sum =
        of_answer (P.add_order (level_or_new P b o) (residual P o remaining)) refl
      where
        of_answer :
            (answer : Result String (Order × Level))
            → P.add_order (level_or_new P b o) (residual P o remaining) ≡ answer
            → IsAccounted total (elim answer as (λ _. Result BookError (Answer P) × Book P) [
              | err e ↦ (err (BookError.price_level_error e), abandon P b o (level_or_new P b o))
              | ok (admitted, level) ↦ (
                ok (admitted, report),
                enter P b (residual P o remaining) remaining original filled admitted level,
              )
            ])
        of_answer (err x) a = tt
        of_answer (ok (admitted, level)) a =
            let same =
              L.add_order-admits (level_or_new P b o) level (residual P o remaining) admitted a in
            subst
              (λ x. IsAccounted total (
                ok (x, report),
                enter P b (residual P o remaining) remaining original filled x level,
              ))
              (sym same)
              (inr (
                omega (arith, residual-total o total remaining e (omega (arith, sum)) fits, sum),
                enter-located b (residual P o remaining) remaining original filled level,
              ))

    conclude-IsAccounted :
        (b : Book P) (out : MatchOutcome P) (report : Option (ℕ × MatchResult))
        → traded report + remaining_quantity out.result ≡ total
        → IsAccounted total (conclude P b o out report)
    unfolding conclude
    conclude-IsAccounted b out report sum =
        let remaining = remaining_quantity out.result in
        let original = total_quantity o.kind in
        if_cases (IsAccounted total) out.taker_stp_cancelled _ _ (λ _. tt)
          λ _.
            if_cases (IsAccounted total) (remaining == 0) _ _ (λ z. inl (ground arith))
              λ _.
                if_cases (IsAccounted total) (P.is_immediate o) _ _ (λ _. tt)
                  (λ _. rest-IsAccounted b remaining original (original - remaining) report sum)

    refuse-IsAccounted : (b : Book P) → IsAccounted total (refuse_crossing P b o)
    unfolding refuse_crossing
    refuse-IsAccounted b = tt

    sweep_and_rest-IsAccounted : (b : Book P) → IsAccounted total (sweep_and_rest P b o true)
    unfolding sweep_and_rest match_order_with_user_outcome
    sweep_and_rest-IsAccounted b = then_in-IsAccounted total _ _ λ out b' matched.
        if_cases (IsAccounted total) out.taker_post_only_rejected _ _ (λ _. refuse-IsAccounted b')
          (λ _.
            conclude-IsAccounted (report_trades P b' out.result true).1 out
              (report_trades P b' out.result true).0
              (omega (
                arith,
                report_trades-traded b' out.result,
                same_total,
                match_order_inner-accounts P L (record b { cache = invalidate b.cache }) o.id o.side
                    (total_quantity o.kind) (some o.price) o.user_id
                    (if P.is_post_only_order o then TakerKind.post_only else TakerKind.standard) out
                    matched,
              )))

    -- A submission of a representable order accounts for its whole quantity: when it is accepted, the
    -- report of its trades covers all of it, or the order that comes back is located on the book at
    -- its price and side with exactly the quantity that was not traded.
    pub add_order_with_result-accounts :
        (b : Book P) (o' : Order) (report : Option (ℕ × MatchResult))
        → (add_order_with_result P b o).0 ≡ ok (o', report)
        → (traded report ≡ total)
          ⊎ ((traded report + total_quantity o'.kind ≡ total)
              × (lookup o'.id (add_order_with_result P b o).1.order_locations
                  ≡ some (o'.price, o'.side)))
    unfolding add_order_with_result add_order_inner
    add_order_with_result-accounts b o' report done =
        accepted (add_order_with_result P b o) done
          (then_in-IsAccounted total (admit P b o) _ (λ _ b' _. sweep_and_rest-IsAccounted b'))
      where
        accepted :
            (r : Result BookError (Answer P) × Book P)
            → r.0 ≡ ok (o', report)
            → IsAccounted total r
            → (traded report ≡ total)
              ⊎ ((traded report + total_quantity o'.kind ≡ total)
                  × (lookup o'.id r.1.order_locations ≡ some (o'.price, o'.side)))
        accepted (r, b') e h = subst (λ x. IsAccounted total (x, b')) e h
