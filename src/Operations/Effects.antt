-- ===== src/Operations/Effects.antt =====
-- What market orders do to the book (src/orderbook/operations.rs, src/orderbook/book.rs).
use order_book_rs.Prelude.{ℕ, refl, false, none, if_cases}
use order_book_rs.Prelude.Result.{Result, ok, err}
use order_book_rs.Types.{Side, TakerKind}
use order_book_rs.Error.{BookError}
use order_book_rs.PriceLevel.{PriceLevels, PriceLevelLaws}
use order_book_rs.Risk.{check_market_admission}
use order_book_rs.Book.{Book}
use order_book_rs.Queries.{check_kill_switch_or_reject, reject}
use order_book_rs.Layout.{IsLaidOut, same_sides-IsLaidOut}
use order_book_rs.Matching.Budget.{MatchMode}
use order_book_rs.Matching.Submit.{
  MatchOutcome, match_order_with_user_outcome, match_order_with_user,
  match_order_by_amount_with_user, result_only,
}
use order_book_rs.Matching.Effects.Sides.{match_order_inner-IsLaidOut}
use order_book_rs.Submission.Shape.{◌then_in◌}
use order_book_rs.Submission.Effects.{report_trades-same, then_in-Holds}
use order_book_rs.Operations.{
  reported, match_market_order_with_user, match_market_order,
  match_market_order_by_amount_with_user, match_market_order_by_amount, submit_market_order,
  submit_market_order_by_amount,
}

module _ (P : PriceLevels) (L : PriceLevelLaws P) where
  open P use {MatchResult}

  abbrev Laid : {A : Type 0} → Result BookError A × Book P → Type 0
  Laid r = IsLaidOut P r.1

  result_only-IsLaidOut :
      (r : Result BookError (MatchOutcome P) × Book P) → IsLaidOut P r.1 → Laid (result_only P r)
  result_only-IsLaidOut (ok o, b) h = h
  result_only-IsLaidOut (err e, b) h = h

  reported-IsLaidOut :
      (r : Result BookError MatchResult × Book P) → IsLaidOut P r.1 → Laid (reported P r)
  unfolding reported
  reported-IsLaidOut r h = then_in-Holds P (IsLaidOut P) r _ h (λ m b h.
      same_sides-IsLaidOut P b _ (report_trades-same P (λ b. b.bids) b m false (λ seq events. refl))
        (report_trades-same P (λ b. b.asks) b m false (λ seq events. refl)) h)

  -- The gates of a market order, and then its match.
  gated-IsLaidOut :
      (b : Book P) (id account : ℕ) (f : Book P → Result BookError MatchResult × Book P)
      → IsLaidOut P b
      → ((b : Book P) → IsLaidOut P b → Laid (f b))
      → Laid (
          check_kill_switch_or_reject P b id
          then_in (λ _ b. (check_market_admission b.risk_state account, b))
          then_in (λ _ b. f b))
  unfolding check_kill_switch_or_reject reject
  gated-IsLaidOut b id account f h k =
      then_in-Holds P (IsLaidOut P) _ _
        (then_in-Holds P (IsLaidOut P) (check_kill_switch_or_reject P b id)
          (λ _ b. (check_market_admission b.risk_state account, b))
          (if_cases (λ (r : Result BookError (Unit {0}) × Book P). IsLaidOut P r.1) b.kill_switch _
            _ (λ _. same_sides-IsLaidOut P b _ refl refl h) (λ _. h))
          (λ _ b h. h))
        (λ _ b h. k b h)

  match_market-IsLaidOut :
      (b : Book P) (id quantity : ℕ) (side : Side) (user_id : ℕ)
      → IsLaidOut P b
      → Laid (match_market_order_with_user P b id quantity side user_id)
  unfolding match_market_order_with_user match_order_with_user match_order_with_user_outcome
  match_market-IsLaidOut b id quantity side user_id h = reported-IsLaidOut _ (
      result_only-IsLaidOut _ (
        match_order_inner-IsLaidOut P L b id side (MatchMode.base_qty quantity none) user_id
          TakerKind.standard h))

  match_market_by_amount-IsLaidOut :
      (b : Book P) (id amount : ℕ) (side : Side) (user_id : ℕ)
      → IsLaidOut P b
      → Laid (match_market_order_by_amount_with_user P b id amount side user_id)
  unfolding match_market_order_by_amount_with_user match_order_by_amount_with_user
  match_market_by_amount-IsLaidOut b id amount side user_id h = reported-IsLaidOut _ (
      result_only-IsLaidOut _ (
        match_order_inner-IsLaidOut P L b id side (MatchMode.quote_amount amount) user_id
          TakerKind.standard h))

  pub submit_market_order-IsLaidOut :
      (b : Book P) (id quantity : ℕ) (side : Side)
      → IsLaidOut P b
      → IsLaidOut P (submit_market_order P b id quantity side).1
  unfolding submit_market_order match_market_order
  submit_market_order-IsLaidOut b id quantity side h =
      gated-IsLaidOut b id 0 _ h (λ b h. match_market-IsLaidOut b id quantity side 0 h)

  pub submit_market_order_by_amount-IsLaidOut :
      (b : Book P) (id amount : ℕ) (side : Side)
      → IsLaidOut P b
      → IsLaidOut P (submit_market_order_by_amount P b id amount side).1
  unfolding submit_market_order_by_amount match_market_order_by_amount
  submit_market_order_by_amount-IsLaidOut b id amount side h =
      gated-IsLaidOut b id 0 _ h (λ b h. match_market_by_amount-IsLaidOut b id amount side 0 h)
