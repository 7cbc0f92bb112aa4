-- ===== src/Matching/Conserve/Notional.antt =====
-- The notional budget of a match by amount (src/orderbook/matching.rs, `match_order_inner` under
-- `MatchMode::QuoteAmount`).
use native.Mathlib.Nat.{mul-zero, mul-add}
use order_book_rs.Prelude.{
  ℕ, ◌+◌, ◌-◌, ◌*◌, ◌≤◌, ◌≡◌, refl, sym, subst, ◌∙◌, option_cases, List, [], ◌∷◌, All, sum_of,
  sum_of-append, arith,
}
use order_book_rs.Prelude.Words.{u128_max}
use order_book_rs.Prelude.Result.{ok}
use order_book_rs.Types.{Side, opposite, TakerKind}
use order_book_rs.Error.{StpMode}
use order_book_rs.PriceLevel.{PriceLevels, PriceLevelLaws}
use order_book_rs.Book.{Book, side_levels}
use order_book_rs.Matching.Budget.{
  MatchMode, from_mode, initial_match_quantity, StopCondition, level_qty_cap, consume,
  level_qty_cap_affordable,
}
use order_book_rs.Matching.Level.{
  Taker, execute, process_level_match, add_or_keep, add_trades, add_filled,
}
use order_book_rs.Matching.Submit.{MatchOutcome, match_order_inner, finish_result, taker_of}
use order_book_rs.Matching.Conserve.Rule.{Keeps}
use order_book_rs.Matching.Conserve.Results.{trades-add_all}
use order_book_rs.Matching.Conserve.Outcome.{of_ok, match_order_inner-OkHolds}
use order_book_rs.Matching.Conserve.Price.{IsAt, trades-finish_result}

module _ (P : PriceLevels) (L : PriceLevelLaws P) where
  open P use {
    Trade, trade_price, trade_quantity, Level, level_price, MatchResult, trades, filled_order_ids,
    add_trade, remaining_quantity, match_order,
  }
  open L use {match_price, match_conserves, add_trade-appends, trades-new, cancel_price}

  -- What the trades cost.
  abbrev pub notional : List Trade → ℕ
  notional ts = sum_of (λ t. trade_price t * trade_quantity t) ts

  notional-add :
      (r : MatchResult) (ts : List Trade)
      → notional (trades (add_trades P r ts)) ≤ notional (trades r) + notional ts
  unfolding add_trades add_or_keep
  notional-add r [] = omega arith
  notional-add r (t ∷ ts) =
      let one : notional (trades (add_or_keep P r t))
          ≤ notional (trades r) + trade_price t * trade_quantity t =
        option_cases
          (λ r'. notional (trades r') ≤ notional (trades r) + trade_price t * trade_quantity t)
          (add_trade r t) _ _ (λ _. omega arith)
          (λ r' e. rw (add_trade-appends r r' t e) (
            omega (
              arith,
              sum_of-append (λ t. trade_price t * trade_quantity t) (trades r) (t ∷ []),
            ))) in
      omega (arith, one, notional-add (add_or_keep P r t) ts)

  notional-at :
      (price : ℕ) (ts : List Trade)
      → All (λ t. trade_price t ≡ price) ts
      → notional ts ≡ price * sum_of trade_quantity ts
  notional-at price [] h = sym (mul-zero price)
  notional-at price (t ∷ ts) h =
      rw
        (mul-add price (trade_quantity t) (sum_of trade_quantity ts), h.0, notional-at price ts h.1)
        refl

  -- The trades and what is left of the budget are within the amount.
  abbrev Spends : ℕ → MatchResult → StopCondition → Type 0
  Spends amount r (StopCondition.base_qty left) = ⊥
  Spends amount r (StopCondition.quote_amount left) = notional (trades r) + left ≤ amount

  Spends-add :
      (amount executed : ℕ) (r m : MatchResult) (price : ℕ) (stop : StopCondition) (lot : ℕ)
      → amount ≤ u128_max
      → notional (trades m) ≡ price * executed
      → executed ≤ level_qty_cap stop price lot
      → Spends amount r stop
      → Spends amount
          (add_filled P (add_trades P r (trades m)) (filled_order_ids m))
          (consume stop executed price)
  unfolding consume
  Spends-add amount executed r m price (StopCondition.base_qty left) lot b e h s = elim s [ ]
  Spends-add amount executed r m price (StopCondition.quote_amount left) lot b e h s =
      let (c, d) =
        level_qty_cap_affordable (StopCondition.quote_amount left) price lot executed
          (omega (arith, b, s)) h in
      rw (trades-add_all P L (add_trades P r (trades m)) (filled_order_ids m))
        (omega (arith, notional-add r (trades m), c, d, e, s))

  execute-Spends :
      (amount : ℕ) (mode : StpMode) (k : Taker) (price : ℕ)
      → amount ≤ u128_max
      → Keeps P (IsAt P L) (Spends amount) mode k price
  unfolding execute process_level_match
  execute-Spends amount mode k price b qty level w allowed at h s =
      let m = (match_order level qty k.order_id k.kind k.timestamp w.book.generator).0 in
      let c = match_conserves level qty k.order_id k.kind k.timestamp w.book.generator in
      let p = match_price level qty k.order_id k.kind k.timestamp w.book.generator in
      let executed : qty - remaining_quantity m ≡ sum_of trade_quantity (trades m) =
        omega (arith, c) in
      Spends-add amount (qty - remaining_quantity m) w.result m price w.stop k.lot b
        (rw executed (
          notional-at price (trades m) (subst (λ q. All (λ t. trade_price t ≡ q) (trades m)) at p)))
        (omega (arith, h)) s

  -- A match by amount never spends more than the amount: in a book whose levels stand at their keys
  -- and for an amount of 128 bits, the sum of price times quantity over the trades is within it.
  pub match_order_inner-within_amount :
      (b : Book P) (order_id : ℕ) (side : Side) (amount user_id : ℕ) (kind : TakerKind)
      (o : MatchOutcome P)
      → amount ≤ u128_max
      → All (λ (e : ℕ × Level). level_price e.1 ≡ e.0) (side_levels b (opposite side))
      → (match_order_inner P b order_id side (MatchMode.quote_amount amount) user_id kind).0 ≡ ok o
      → sum_of (λ t. trade_price t * trade_quantity t) (trades o.result) ≤ amount
  unfolding from_mode initial_match_quantity
  match_order_inner-within_amount b order_id side amount user_id kind o bound good e =
      let mode = MatchMode.quote_amount amount in
      let start = P.new_result order_id (initial_match_quantity mode) in
      let Q : MatchResult → Type 0 = λ r. notional (trades r) ≤ amount in
      let none_yet = trades-new order_id (initial_match_quantity mode) in
      of_ok P Q _ o e (
        match_order_inner-OkHolds P (IsAt P L) (Spends amount) Q b order_id side mode user_id kind
          (λ price l l' o id c at. cancel_price l l' o id c ∙ at)
          (λ price.
            execute-Spends amount b.stp_mode (taker_of P b order_id side mode user_id kind) price
              bound)
          (rw none_yet (omega arith)) ends (rw none_yet (omega arith)) good)
    where
      ends :
          (r : MatchResult) (stop : StopCondition)
          → Spends amount r stop
          → notional (trades (finish_result P order_id (MatchMode.quote_amount amount) r)) ≤ amount
      ends r (StopCondition.base_qty left) h = elim h [ ]
      ends r (StopCondition.quote_amount left) h =
          rw (trades-finish_result P L order_id (MatchMode.quote_amount amount) r)
            (omega (arith, h))
