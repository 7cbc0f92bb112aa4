-- ===== src/Matching/Conserve/Outcome.antt =====
-- From a fact that a walk keeps to the outcome of a whole match (src/orderbook/matching.rs,
-- `match_order_inner`).
use order_book_rs.Prelude.{
  ℕ, ◌≡◌, subst, ◌&&◌, none, if◌then◌else◌, if_cases, option_cases, All, All-reverse,
}
use order_book_rs.Prelude.Maps.{Map}
use order_book_rs.Prelude.Result.{Result, ok, err}
use order_book_rs.Types.{Side, opposite, TakerKind}
use order_book_rs.Error.{BookError}
use order_book_rs.PriceLevel.{PriceLevels}
use order_book_rs.Book.{Book, side_levels}
use order_book_rs.Matching.Budget.{MatchMode, StopCondition, from_mode, initial_match_quantity}
use order_book_rs.Matching.Level.{Sweep, Taker}
use order_book_rs.Matching.Submit.{
  MatchOutcome, best_first, is_empty, shortfall, empty_book_result, finish_result, finish, sweep,
  match_order_inner, taker_of, entered,
}
use order_book_rs.Matching.Conserve.Rule.{IsKept, Keeps, AllGood, walk-Holds}

module _ (P : PriceLevels) where
  open P use {MatchResult, new_result, trades, Level}

  -- What holds of the result of a match, when there is one.
  abbrev pub OkHolds : (MatchResult → Type 0) → Result BookError (MatchOutcome P) → Type 0
  OkHolds Q (ok o) = Q o.result
  OkHolds Q (err e) = Unit

  pub of_ok :
      (Q : MatchResult → Type 0) (r : Result BookError (MatchOutcome P)) (o : MatchOutcome P)
      → r ≡ ok o
      → OkHolds Q r
      → Q o.result
  of_ok Q r o e h = subst (OkHolds Q) e h

  pub finish-OkHolds :
      (Q : MatchResult → Type 0) (k : Taker) (mode : MatchMode) (w : Sweep P)
      → Q (finish_result P k.order_id mode w.result)
      → OkHolds Q (finish P k mode w).0
  unfolding finish
  finish-OkHolds Q k mode w q =
      let R : Type 0 = Result BookError (MatchOutcome P) × Book P in
      if_cases (λ (r : R). OkHolds Q r.0) (w.stp_taker_cancelled && is_empty (trades w.result)) _ _
        (λ _. tt)
        (λ _.
          option_cases (λ (r : R). OkHolds Q r.0)
            (if is_empty (trades w.result) then shortfall k.side mode else none) _ _ (λ _. q)
            (λ e _. tt))

  pub empty_book_result-OkHolds :
      (Q : MatchResult → Type 0) (side : Side) (mode : MatchMode) (r : MatchResult)
      → Q r
      → OkHolds Q (empty_book_result P side mode r)
  unfolding empty_book_result
  empty_book_result-OkHolds Q side mode r q =
      option_cases (OkHolds Q) (shortfall side mode) _ _ (λ _. q) (λ e _. tt)

  pub best_first-AllGood :
      (Good : ℕ → Level → Type 0) (side : Side) (levels : Map Level)
      → All (λ (e : ℕ × Level). Good e.0 e.1) levels
      → All (λ (e : ℕ × Level). Good e.0 e.1) (best_first side levels)
  unfolding best_first
  best_first-AllGood Good Side.buy levels h = h
  best_first-AllGood Good Side.sell levels h =
      All-reverse (λ (e : ℕ × Level). Good e.0 e.1) levels h

  module _ (Good : ℕ → Level → Type 0) (J : MatchResult → StopCondition → Type 0)
      (Q : MatchResult → Type 0) (b : Book P) (order_id : ℕ) (side : Side) (mode : MatchMode)
      (user_id : ℕ) (kind : TakerKind) (kept : (price : ℕ) → IsKept P (Good price))
      (keeps : (price : ℕ)
        → Keeps P Good J b.stp_mode (taker_of P b order_id side mode user_id kind) price)
      (starts : J (new_result order_id (initial_match_quantity mode)) (from_mode mode))
      (ends : (r : MatchResult) (stop : StopCondition)
        → J r stop
        → Q (finish_result P order_id mode r))
      (untouched : Q (new_result order_id (initial_match_quantity mode))) where
    pub sweep-Holds :
        AllGood P Good J b.stp_mode
          (taker_of P b order_id side mode user_id kind)
          (side_levels b (opposite side))
        → let w = sweep P (taker_of P b order_id side mode user_id kind) mode (entered P b) in
          J w.result w.stop
    unfolding sweep
    sweep-Holds good =
        walk-Holds P Good J b.stp_mode (taker_of P b order_id side mode user_id kind) kept keeps
          (best_first side (side_levels b (opposite side))) _
          (best_first-AllGood Good side (side_levels b (opposite side)) good) starts

    -- A fact of the result that the walk keeps holds of the outcome.
    pub match_order_inner-OkHolds :
        AllGood P Good J b.stp_mode
          (taker_of P b order_id side mode user_id kind)
          (side_levels b (opposite side))
        → OkHolds Q (match_order_inner P b order_id side mode user_id kind).0
    unfolding match_order_inner
    match_order_inner-OkHolds good =
        let k = taker_of P b order_id side mode user_id kind in
        let R : Type 0 = Result BookError (MatchOutcome P) × Book P in
        if_cases (λ (r : R). OkHolds Q r.0) (is_empty (side_levels (entered P b) (opposite side))) _
          _
          (λ _.
            empty_book_result-OkHolds Q side mode
              (new_result order_id (initial_match_quantity mode)) untouched)
          (λ _.
            finish-OkHolds Q k mode (sweep P k mode (entered P b)) (ends _ _ (sweep-Holds good)))
