-- ===== src/Matching/DryRun/Exact.antt =====
-- A fill-or-kill order that passes the feasibility run is filled (src/orderbook/matching.rs,
-- `fok_fillable_quantity` against `match_order_inner`).
use order_book_rs.Prelude.{
  ℕ, ◌+◌, ◌≤◌, ◌<◌, ◌≡◌, refl, sym, subst, ap, true, false, ◌&&◌, not, Option, none, List, [], ◌∷◌,
  ◌==◌, inl, inr, if◌then◌else◌, if_cases, option_cases, if_true, if_false, sum_of, Bool-cases,
  arith,
}
use order_book_rs.Prelude.Words.{u64_max}
use order_book_rs.Prelude.Maps.{Map}
use order_book_rs.Prelude.Result.{Result, ok, err}
use order_book_rs.Types.{Side, opposite, TakerKind}
use order_book_rs.Error.{BookError}
use order_book_rs.PriceLevel.{PriceLevels, PriceLevelLaws}
use order_book_rs.Stp.{is_enabled}
use order_book_rs.Book.{Book, side_levels}
use order_book_rs.Matching.Budget.{
  MatchMode, StopCondition, limit_price, from_mode, initial_match_quantity,
}
use order_book_rs.Matching.Level.{Sweep, Taker}
use order_book_rs.Matching.Submit.{
  MatchOutcome, best_first, is_empty, shortfall, finish, finish_result, sweep, match_order_inner,
  taker_of, entered,
}
use order_book_rs.Matching.Conserve.Outcome.{
  OkHolds, of_ok, finish-OkHolds, empty_book_result-OkHolds,
}
use order_book_rs.Matching.DryRun.{fillable, fok_fillable_quantity}
use order_book_rs.Matching.DryRun.FillOrKill.{query, IsRun, walk-IsRun, fillable_done}
use order_book_rs.Matching.Conserve.Quantity.{Accounts, sweep-Accounts}

module _ (P : PriceLevels) (L : PriceLevelLaws P) where
  open P use {MatchResult, trades, trade_quantity, remaining_quantity}

  module _ (b : Book P) (order_id : ℕ) (side : Side) (quantity : ℕ) (limit : Option ℕ) (user_id : ℕ)
      (no_stp : (is_enabled b.stp_mode && not (user_id == 0)) ≡ false)
      (fits : quantity ≤ u64_max) where
    abbrev k : Taker
    k = taker_of P b order_id side (MatchMode.base_qty quantity limit) user_id TakerKind.standard

    abbrev how : MatchMode
    how = MatchMode.base_qty quantity limit

    abbrev levels : Map P.Level
    levels = side_levels b (opposite side)

    -- What the run counts on a side that is not empty.
    abbrev counted : ℕ
    counted = fillable P b.stp_mode (query P L b.stp_mode k quantity) (best_first side levels) 0

    sweep-IsRun :
        IsRun P L b.stp_mode k quantity refl no_stp (sweep P k how (entered P b)).stop counted
    unfolding sweep from_mode
    sweep-IsRun =
        walk-IsRun P L b.stp_mode k quantity refl no_stp (best_first side levels) _ 0
          (ap StopCondition.base_qty (omega arith)) (omega arith) fits

    sweep-remaining :
        (counted ≤ quantity)
        × (counted + remaining_quantity (sweep P k how (entered P b)).result ≡ quantity)
    sweep-remaining =
        let w = sweep P k how (entered P b) in
        let (e, le) = sweep-IsRun in
        let accounts =
          subst (Accounts P quantity w.result) e
            (sweep-Accounts P L b order_id side quantity limit user_id TakerKind.standard) in
        (le, omega (arith, le, accounts.1))

    fok-counted :
        is_empty levels ≡ false
        → fok_fillable_quantity P b side quantity limit user_id order_id ≡ counted
    unfolding fok_fillable_quantity limit_price
    fok-counted some_level =
        if_cases (λ n. n ≡ counted) (quantity == 0) _ _
          (λ z. sym (
            fillable_done P L b.stp_mode k quantity refl no_stp (best_first side levels) 0
              (ground arith)))
          (λ nz. if_false (λ n. n ≡ counted) (is_empty levels) _ _ some_level (rw no_stp refl))

    fok-none :
        is_empty levels ≡ true → fok_fillable_quantity P b side quantity limit user_id order_id ≡ 0
    unfolding fok_fillable_quantity
    fok-none no_level =
        if_cases (λ n. n ≡ 0) (quantity == 0) _ _ (λ _. refl)
          (λ _. if_true (λ n. n ≡ 0) (is_empty levels) _ _ no_level refl)

    abbrev IsCounted : MatchResult → Type 0
    IsCounted r =
        fok_fillable_quantity P b side quantity limit user_id order_id + remaining_quantity r
        ≡ quantity

    match_order_inner-IsCounted :
        OkHolds P IsCounted (match_order_inner P b order_id side how user_id TakerKind.standard).0
    unfolding match_order_inner finish_result initial_match_quantity
    match_order_inner-IsCounted =
        let R : Type 0 = Result BookError (MatchOutcome P) × Book P in
        if_cases (λ (r : R). OkHolds P IsCounted r.0) (is_empty levels) _ _
          (λ no_level.
            empty_book_result-OkHolds P IsCounted side how (P.new_result order_id quantity)
              (rw (fok-none no_level, L.remaining-new order_id quantity) (omega arith)))
          (λ some_level.
            finish-OkHolds P IsCounted k how (sweep P k how (entered P b))
              (rw (fok-counted some_level) sweep-remaining.1))

    -- Where self-trade prevention does not apply, the feasibility run is exact: what it counts is what
    -- a standard match of the same quantity trades, so the count and what remains of a match that
    -- returns a result add up to the quantity. For quantities of 64 bits.
    pub fok_fillable_quantity-exact :
        (o : MatchOutcome P)
        → (match_order_inner P b order_id side
            (MatchMode.base_qty quantity limit)
            user_id
            TakerKind.standard).0
          ≡ ok o
        → fok_fillable_quantity P b side quantity limit user_id order_id
            + remaining_quantity o.result
          ≡ quantity
    fok_fillable_quantity-exact o e = of_ok P IsCounted _ o e match_order_inner-IsCounted

    -- A result, and what holds of it.
    abbrev OkIs : (MatchResult → Type 0) → Result BookError (MatchOutcome P) → Type 0
    OkIs Q (ok o) = Q o.result
    OkIs Q (err e) = ⊥

    the_outcome :
        (Q : MatchResult → Type 0) (r : Result BookError (MatchOutcome P))
        → OkIs Q r
        → (o : MatchOutcome P) × (r ≡ ok o) × Q o.result
    the_outcome Q (ok o) q = (o, refl, q)
    the_outcome Q (err e) q = elim q [ ]

    -- A sweep with a trade ends in a result, not in an error.
    finish-OkIs :
        (Q : MatchResult → Type 0) (w : Sweep P)
        → is_empty (trades w.result) ≡ false
        → Q w.result
        → OkIs Q (finish P k how w).0
    unfolding finish finish_result
    finish-OkIs Q w traded q =
        let R : Type 0 = Result BookError (MatchOutcome P) × Book P in
        if_cases (λ (r : R). OkIs Q r.0) (w.stp_taker_cancelled && is_empty (trades w.result)) _ _
          (λ both. absurd (ground (arith, traded)))
          (λ _.
            option_cases (λ (r : R). OkIs Q r.0)
              (if is_empty (trades w.result) then shortfall side how else none) _ _ (λ _. q)
              (λ x e. absurd (ground (arith, traded))))

    no_trade_sum : (ts : List P.Trade) → is_empty ts ≡ true → sum_of trade_quantity ts ≡ 0
    no_trade_sum [] e = refl
    no_trade_sum (t ∷ ts) e = cc

    sweep-traded :
        0 < quantity
        → quantity ≤ counted
        → (is_empty (trades (sweep P k how (entered P b)).result) ≡ false)
          × (remaining_quantity (sweep P k how (entered P b)).result ≡ 0)
    sweep-traded positive full =
        let w = sweep P k how (entered P b) in
        let a =
          subst (Accounts P quantity w.result) sweep-IsRun.0
            (sweep-Accounts P L b order_id side quantity limit user_id TakerKind.standard) in
        let zero_left : remaining_quantity w.result ≡ 0 = omega (arith, sweep-remaining.1, full) in
        (
          elim (Bool-cases (is_empty (trades w.result))) [
            | inl e ↦
                absurd (omega (arith, no_trade_sum (trades w.result) e, a.0, zero_left, positive))
            | inr e ↦ e
          ],
          zero_left,
        )

    -- So an order that passes the run is filled, where self-trade prevention does not apply: a positive
    -- quantity of 64 bits that the run counts in full is matched without an error, and nothing of it
    -- remains.
    pub fok_fillable_quantity-fills :
        0 < quantity
        → quantity ≤ fok_fillable_quantity P b side quantity limit user_id order_id
        → (o : MatchOutcome P) × ((match_order_inner P b order_id side
              (MatchMode.base_qty quantity limit)
              user_id
              TakerKind.standard).0
            ≡ ok o)
          × (remaining_quantity o.result ≡ 0)
    unfolding match_order_inner
    fok_fillable_quantity-fills positive full =
        let R : Type 0 = Result BookError (MatchOutcome P) × Book P in
        let Q : MatchResult → Type 0 = λ r. remaining_quantity r ≡ 0 in
        the_outcome Q (match_order_inner P b order_id side how user_id TakerKind.standard).0 (
          if_cases (λ (r : R). OkIs Q r.0) (is_empty levels) _ _
            (λ no_level. absurd (omega (arith, fok-none no_level, positive, full)))
            (λ some_level.
              let (traded, zero_left) =
                sweep-traded positive (subst (λ n. quantity ≤ n) (fok-counted some_level) full) in
              finish-OkIs Q (sweep P k how (entered P b)) traded zero_left))
