-- ===== src/Submission/Effects/Locations.antt =====
-- What a refused submission does to the locations of orders (`add_order_inner`).
use order_book_rs.Prelude.{
  subst, ℕ, ◌≡◌, refl, sym, ◌∙◌, Bool, Option, none, some, if◌then◌else◌, if_cases,
}
use order_book_rs.Prelude.Maps.{lookup}
use order_book_rs.Prelude.Result.{Result, ok, err}
use order_book_rs.Types.{Order, TakerKind}
use order_book_rs.Error.{BookError}
use order_book_rs.PriceLevel.{PriceLevels}
use order_book_rs.Book.{Book, invalidate}
use order_book_rs.Orders.{total_quantity}
use order_book_rs.Matching.Budget.{MatchMode}
use order_book_rs.Matching.Submit.{match_order_with_user_outcome}
use order_book_rs.Matching.Effects.Locations.{IsGone, match_order_inner-IsGone}
use order_book_rs.Submission.Shape.{◌then_in◌}
use order_book_rs.Submission.Add.{
  Answer, admit, report_trades, abandon, rest, refuse_crossing, sweep_and_rest, add_order_inner,
}
use order_book_rs.Submission.Gate.{admit-IsUntouched}
use order_book_rs.Submission.Effects.{
  rest_cases, conclude_cases, report_trades-same, refuse_crossing-same,
}

module _ (P : PriceLevels) where
  open P use {Level, level_price, MatchResult, trades}

  module _ (j : ℕ) where
    -- Located nowhere, if the submission is refused.
    abbrev pub IsGoneOnRefusal : Result BookError (Answer P) × Book P → Type 0
    IsGoneOnRefusal (ok a, b) = Unit
    IsGoneOnRefusal (err e, b) = IsGone P j b

    then_in-gone :
        {A : Type 0} (r : Result BookError A × Book P)
        (f : A → Book P → Result BookError (Answer P) × Book P)
        → IsGone P j r.1
        → ((a : A) (b : Book P) → IsGone P j b → IsGoneOnRefusal (f a b))
        → IsGoneOnRefusal (r then_in f)
    unfolding ◌then_in◌
    then_in-gone (ok a, b) f h k = k a b h
    then_in-gone (err e, b) f h k = h

    rest-gone :
        (b : Book P) (o : Order) (remaining original filled : ℕ) (report : Option (ℕ × MatchResult))
        → IsGone P j b
        → IsGoneOnRefusal (rest P b o remaining original filled report)
    unfolding abandon
    rest-gone b o remaining original filled report h =
        rest_cases P IsGoneOnRefusal b o remaining original filled report (λ e. h)
          (λ admitted level a. tt)

    refuse_crossing-gone :
        (b : Book P) (o : Order) → IsGone P j b → IsGoneOnRefusal (refuse_crossing P b o)
    unfolding refuse_crossing
    refuse_crossing-gone b o h =
        subst (λ m. lookup j m ≡ none) (sym (refuse_crossing-same P b o).2) h

    sweep_and_rest-gone :
        (b : Book P) (o : Order) (want : Bool)
        → IsGone P j b
        → IsGoneOnRefusal (sweep_and_rest P b o want)
    unfolding sweep_and_rest match_order_with_user_outcome
    sweep_and_rest-gone b o want h =
        then_in-gone _ _
          (match_order_inner-IsGone P j (record b { cache = invalidate b.cache }) o.id o.side
            (MatchMode.base_qty (total_quantity o.kind) (some o.price)) o.user_id
            (if P.is_post_only_order o then TakerKind.post_only else TakerKind.standard) h)
          λ out b' h'.
            if_cases IsGoneOnRefusal out.taker_post_only_rejected _ _
              (λ _. refuse_crossing-gone b' o h')
              (λ _.
                let (report, b'') = report_trades P b' out.result want in
                let h'' : IsGone P j b'' =
                  report_trades-same P (λ b. lookup j b.order_locations) b' out.result want
                    (λ seq events. refl)
                  ∙ h' in
                conclude_cases P IsGoneOnRefusal b'' o out report (λ e t. h'') (λ t. tt)
                  (λ remaining original filled.
                    rest-gone b'' o remaining original filled report h''))

    -- A refused submission gives no order a location.
    pub add_order_inner-gone :
        (b : Book P) (o : Order) (want : Bool)
        → IsGone P j b
        → IsGoneOnRefusal (add_order_inner P b o want)
    unfolding add_order_inner
    add_order_inner-gone b o want h =
        then_in-gone (admit P b o) _
          (subst (λ m. lookup j m ≡ none) (sym (admit-IsUntouched P b o).2) h)
          (λ _ b' h'. sweep_and_rest-gone b' o want h')
