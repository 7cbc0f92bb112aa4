-- ===== src/Matching/Conserve/Quantity.antt =====
-- The base quantity of a match is accounted for (src/orderbook/matching.rs, `match_order_inner`).
use order_book_rs.Prelude.{
  ℕ, ◌+◌, ◌-◌, ◌≤◌, ◌≡◌, sym, Option, [], ◌∷◌, sum_of, sum_of-append, arith,
}
use order_book_rs.Prelude.Maps.{Map}
use order_book_rs.Prelude.Result.{ok}
use order_book_rs.Types.{Side, opposite, TakerKind}
use order_book_rs.Error.{StpMode}
use order_book_rs.PriceLevel.{PriceLevels, PriceLevelLaws}
use order_book_rs.Book.{Book, side_levels}
use order_book_rs.Matching.Budget.{
  MatchMode, from_mode, initial_match_quantity, StopCondition, level_qty_cap, consume, round_lot-le,
}
use order_book_rs.Matching.Level.{Taker, execute, process_level_match, add_trades, add_filled}
use order_book_rs.Matching.Submit.{
  MatchOutcome, match_order_inner, finish_result, taker_of, entered, sweep,
}
use order_book_rs.Matching.Conserve.Rule.{Keeps, AllGood}
use order_book_rs.Matching.Conserve.Results.{add_trades-fits, trades-add_all, remaining-add_all}
use order_book_rs.Matching.Conserve.Outcome.{of_ok, sweep-Holds, match_order_inner-OkHolds}

module _ (P : PriceLevels) where
  open P use {
    Level, MatchResult, trades, trade_quantity, remaining_quantity, filled_order_ids, match_order,
  }

  -- `quantity` is traded or remains, and what remains is the budget.
  abbrev pub Accounts : ℕ → MatchResult → StopCondition → Type 0
  Accounts quantity r (StopCondition.base_qty left) =
      (sum_of trade_quantity (trades r) + remaining_quantity r ≡ quantity)
      × (left ≡ remaining_quantity r)
  Accounts quantity r (StopCondition.quote_amount left) = ⊥

  module _ (L : PriceLevelLaws P) where
    open L use {match_conserves, remaining-new, trades-new}

    Accounts-add :
        (quantity executed : ℕ) (r m : MatchResult) (price : ℕ) (stop : StopCondition) (lot : ℕ)
        → sum_of trade_quantity (trades m) ≡ executed
        → executed ≤ level_qty_cap stop price lot
        → Accounts quantity r stop
        → Accounts quantity
            (add_filled P (add_trades P r (trades m)) (filled_order_ids m))
            (consume stop executed price)
    unfolding consume level_qty_cap
    Accounts-add quantity executed r m price (StopCondition.base_qty left) lot e h (a, b) =
        let (t, q) =
          add_trades-fits P L r (trades m) (omega (arith, e, h, b, round_lot-le left lot)) in
        let ids = P.filled_order_ids m in
        let all = add_trades P r (trades m) in
        let s = sum_of-append trade_quantity (trades r) (trades m) in
        rw (trades-add_all P L all ids, remaining-add_all P L all ids, t)
          (omega (arith, s, e, h, a, b, q), omega (arith, s, e, h, a, b, q))
    Accounts-add quantity executed r m price (StopCondition.quote_amount left) lot e h a =
        elim a [ ]

    execute-Accounts :
        (quantity : ℕ) (mode : StpMode) (k : Taker) (price : ℕ)
        → Keeps P (λ _ _. Unit) (Accounts quantity) mode k price
    unfolding execute process_level_match
    execute-Accounts quantity mode k price qty level w allowed g h a =
        let m = (match_order level qty k.order_id k.kind k.timestamp w.book.generator).0 in
        let c = match_conserves level qty k.order_id k.kind k.timestamp w.book.generator in
        Accounts-add quantity (qty - remaining_quantity m) w.result m price w.stop k.lot
          (omega (arith, c)) (omega (arith, h)) a

    finish-Accounts :
        (quantity : ℕ) (limit : Option ℕ) (order_id : ℕ) (r : MatchResult) (stop : StopCondition)
        → Accounts quantity r stop
        → let r' = finish_result P order_id (MatchMode.base_qty quantity limit) r in
          sum_of trade_quantity (trades r') + remaining_quantity r' ≡ quantity
    unfolding finish_result
    finish-Accounts quantity limit order_id r (StopCondition.base_qty left) a = a.0
    finish-Accounts quantity limit order_id r (StopCondition.quote_amount left) a = elim a [ ]

    trivial :
        (quantity : ℕ) (mode : StpMode) (k : Taker) (levels : Map Level)
        → AllGood P (λ _ _. Unit) (Accounts quantity) mode k levels
    trivial quantity mode k [] = tt
    trivial quantity mode k (l ∷ levels) = (tt, trivial quantity mode k levels)

    module _ (b : Book P) (order_id : ℕ) (side : Side) (quantity : ℕ) (limit : Option ℕ)
        (user_id : ℕ) (kind : TakerKind) where
      abbrev k : Taker
      k = taker_of P b order_id side (MatchMode.base_qty quantity limit) user_id kind

      new_sum :
          sum_of trade_quantity (trades (P.new_result order_id quantity))
            + remaining_quantity (P.new_result order_id quantity)
          ≡ quantity
      new_sum = rw (trades-new order_id quantity, remaining-new order_id quantity) (omega arith)

      starts-Accounts :
          Accounts quantity (P.new_result order_id quantity) (StopCondition.base_qty quantity)
      starts-Accounts = (new_sum, sym (remaining-new order_id quantity))

      -- The sweep leaves the budget that remains.
      pub sweep-Accounts :
          let w = sweep P k (MatchMode.base_qty quantity limit) (entered P b) in
          Accounts quantity w.result w.stop
      unfolding from_mode initial_match_quantity
      sweep-Accounts =
          sweep-Holds P (λ _ _. Unit) (Accounts quantity)
            (λ r. sum_of trade_quantity (trades r) + remaining_quantity r ≡ quantity) b order_id
            side (MatchMode.base_qty quantity limit) user_id kind (λ _ _ _ _ _ _ _. tt)
            (execute-Accounts quantity b.stp_mode k) starts-Accounts
            (finish-Accounts quantity limit order_id) new_sum
            (trivial quantity b.stp_mode k (side_levels b (opposite side)))

      -- Every match of a base quantity that returns a result accounts for the whole quantity: the
      -- quantities of its trades and what remains add up to what was asked, whatever the limit, the
      -- lot size, the kind of the taker and the self-trade prevention.
      pub match_order_inner-accounts :
          (o : MatchOutcome P)
          → (match_order_inner P b order_id side (MatchMode.base_qty quantity limit) user_id kind).0
            ≡ ok o
          → sum_of trade_quantity (trades o.result) + remaining_quantity o.result ≡ quantity
      unfolding from_mode initial_match_quantity
      match_order_inner-accounts o e =
          let Q : MatchResult → Type 0 =
            λ r. sum_of trade_quantity (trades r) + remaining_quantity r ≡ quantity in
          of_ok P Q _ o e (
            match_order_inner-OkHolds P (λ _ _. Unit) (Accounts quantity) Q b order_id side
              (MatchMode.base_qty quantity limit) user_id kind (λ _ _ _ _ _ _ _. tt)
              (execute-Accounts quantity b.stp_mode k) starts-Accounts
              (finish-Accounts quantity limit order_id) new_sum
              (trivial quantity b.stp_mode k (side_levels b (opposite side))))
