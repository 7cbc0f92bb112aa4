-- ===== src/Submission/Effects.antt =====
-- What the steps of a submission do to the book (src/orderbook/modifications.rs).
pub mod Sides
pub mod Locations
use order_book_rs.Prelude.{
  ltb, subst, ℕ, ◌≡◌, refl, sym, ◌∙◌, ◌&&◌, ◌||◌, not, Bool, Option, none, some, List, ◌∷◌, ◌==◌,
  if◌then◌else◌, if_cases,
}
use Prim.Native.String.{String}
use order_book_rs.Prelude.Maps.{Map, lookup, erase, upsert}
use order_book_rs.Prelude.Result.{Result, ok, err}
use order_book_rs.Types.{Order, OrderKind, TakerKind}
use order_book_rs.Error.{BookError}
use order_book_rs.RejectReason.{RejectReason}
use order_book_rs.OrderState.{Tracker}
use order_book_rs.PriceLevel.{PriceLevels, PriceLevelLaws}
use order_book_rs.Book.{Book, invalidate, emit_level_change, side_levels, put_side, without}
use order_book_rs.Orders.{total_quantity}
use order_book_rs.Queries.{reject}
use order_book_rs.Cancel.Effects.{lookup-IsKeyed}
use order_book_rs.Layout.{
  IsSide, IsLaidOut, erase-IsSide, upsert-IsSide, side_levels-IsSide, put_side-IsLaidOut,
  same_sides-IsLaidOut,
}
use order_book_rs.Matching.Budget.{MatchMode}
use order_book_rs.Matching.Submit.{MatchOutcome, is_empty, match_order_with_user_outcome}
use order_book_rs.Matching.Effects.Sides.{match_order_inner-IsLaidOut}
use order_book_rs.Matching.Effects.Locations.{IsGone, match_order_inner-IsGone}
use order_book_rs.Submission.Shape.{◌then_in◌}
use order_book_rs.Submission.Add.{
  Answer, admit, report_trades, register_special, residual, enter, abandon, rest, conclude,
  refuse_crossing, sweep_and_rest, add_order_inner, level_or_new,
}
use order_book_rs.Submission.Steps.{IsUntouched, crossing_error-IsUntouched}
use order_book_rs.Submission.Gate.{admit-IsUntouched}

module _ (P : PriceLevels) where
  open P use {Level, level_price, MatchResult, trades}

  -- A fact of the book, carried through steps in sequence.
  pub then_in-Holds :
      {A B : Type 0} (J : Book P → Type 0) (r : Result BookError A × Book P)
      (f : A → Book P → Result BookError B × Book P)
      → J r.1
      → ((a : A) (b : Book P) → J b → J (f a b).1)
      → J (r then_in f).1
  unfolding ◌then_in◌
  then_in-Holds J (ok a, b) f h k = k a b h
  then_in-Holds J (err e, b) f h k = h

  pub register_special-same :
      {A : Type 0} (f : Book P → A) (o : Order) (b : Book P)
      → ((ids : List ℕ) → f (record b { pegged_orders = ids }) ≡ f b)
      → ((ids : List ℕ) → f (record b { trailing_stops = ids }) ≡ f b)
      → f (register_special P o b) ≡ f b
  unfolding register_special
  register_special-same f o b pegs stops = of_kind o.kind
    where
      of_kind :
          (kind : OrderKind)
          → f (elim kind as (λ _. Book P) [
            | OrderKind.pegged q reference offset ↦ record b {
              pegged_orders = o.id ∷ without o.id b.pegged_orders;
            }
            | OrderKind.trailing_stop q trail reference ↦ record b {
              trailing_stops = o.id ∷ without o.id b.trailing_stops;
            }
            | _ ↦ b
          ])
            ≡ f b
      of_kind (OrderKind.pegged q reference offset) = pegs _
      of_kind (OrderKind.trailing_stop q trail reference) = stops _
      of_kind _ = refl

  -- A residual rests if its level admits it, and is abandoned otherwise.
  module _ (C : Result BookError (Answer P) × Book P → Type 0) (b : Book P) (o : Order)
      (remaining original filled : ℕ) (report : Option (ℕ × MatchResult))
      (refused : (e : String)
        → C (err (BookError.price_level_error e), abandon P b o (level_or_new P b o)))
      (entered : (admitted : Order) (level : Level)
        → P.add_order (level_or_new P b o) (residual P o remaining) ≡ ok (admitted, level)
        → C (
          ok (admitted, report),
          enter P b (residual P o remaining) remaining original filled admitted level,
        )) where
    pub rest_cases : C (rest P b o remaining original filled report)
    unfolding rest
    rest_cases = of_answer (P.add_order (level_or_new P b o) (residual P o remaining)) refl
      where
        of_answer :
            (answer : Result String (Order × Level))
            → P.add_order (level_or_new P b o) (residual P o remaining) ≡ answer
            → C (elim answer as (λ _. Result BookError (Answer P) × Book P) [
              | err e ↦ (err (BookError.price_level_error e), abandon P b o (level_or_new P b o))
              | ok (admitted, level) ↦ (
                ok (admitted, report),
                enter P b (residual P o remaining) remaining original filled admitted level,
              )
            ])
        of_answer (err e) a = refused e
        of_answer (ok (admitted, level)) a = entered admitted level a

  -- The end of a submission, whatever the sweep left.
  module _ (C : Result BookError (Answer P) × Book P → Type 0) (b : Book P) (o : Order)
      (out : MatchOutcome P) (report : Option (ℕ × MatchResult))
      (failed : (e : BookError) (t : Option Tracker) → C (err e, record b { tracker = t }))
      (done : (t : Option Tracker) → C (ok (o, report), record b { tracker = t }))
      (rested : (remaining original filled : ℕ)
        → C (rest P b o remaining original filled report)) where
    pub conclude_cases : C (conclude P b o out report)
    unfolding conclude
    conclude_cases =
        if_cases C out.taker_stp_cancelled _ _ (λ _. failed _ _)
          (λ _.
            if_cases C (P.remaining_quantity out.result == 0) _ _ (λ _. done _)
              (λ _. if_cases C (P.is_immediate o) _ _ (λ _. failed _ _) (λ _. rested _ _ _)))

  pub report_trades-same :
      {A : Type 0} (f : Book P → A) (b : Book P) (r : MatchResult) (want : Bool)
      → ((seq : ℕ) (events : List (ℕ × MatchResult))
          → f (record b { engine_seq = seq; trade_events = events }) ≡ f b)
      → f (report_trades P b r want).1 ≡ f b
  unfolding report_trades
  report_trades-same f b r want h =
      if_cases (λ (x : Option (ℕ × MatchResult) × Book P). f x.1 ≡ f b)
        (not (is_empty (trades r)) && (want || b.has_trade_listener)) _ _ (λ _. h _ _) (λ _. refl)

  pub refuse_crossing-same : (b : Book P) (o : Order) → IsUntouched P b (refuse_crossing P b o).1
  unfolding refuse_crossing reject
  refuse_crossing-same b o =
      crossing_error-IsUntouched P b (reject P b o.id RejectReason.post_only_would_cross) o
        (refl, refl, refl, refl, refl, refl)
