-- ===== src/Tests/Matches.antt =====
-- The properties of a match, at matches against the test market.
use order_book_rs.Prelude.{ℕ, ◌+◌, ◌*◌, ◌≤◌, ◌≡◌, refl, false, some, [], All, sum_of, arith}
use order_book_rs.Prelude.Result.{ok}
use order_book_rs.Types.{Side, opposite, TakerKind}
use order_book_rs.Error.{StpMode}
use order_book_rs.Matching.Budget.{MatchMode, limit_price}
use order_book_rs.Book.{side_levels}
use order_book_rs.Matching.Walk.{beyond_limit}
use order_book_rs.Matching.Submit.{MatchOutcome, match_order_inner}
use order_book_rs.Matching.Conserve.Quantity.{match_order_inner-accounts}
use order_book_rs.Matching.Conserve.Price.{match_order_inner-within_limit}
use order_book_rs.Matching.Conserve.Notional.{match_order_inner-within_amount}
use order_book_rs.Matching.PostOnly.{match_order_inner-post_only}
use order_book_rs.Tests.Fifo.{fifo, fifo-laws}
use order_book_rs.Tests.Market.{market, bought, bought-ok, spent, spent-ok}

accounts_example :
    sum_of fifo.trade_quantity (fifo.trades bought.result) + fifo.remaining_quantity bought.result
    ≡ 10
accounts_example =
    match_order_inner-accounts fifo fifo-laws (market StpMode.none) 50 Side.buy 10 (some 100) 9
      TakerKind.standard bought bought-ok

market-keyed :
    All
      (λ (e : ℕ × fifo.Level). fifo.level_price e.1 ≡ e.0)
      (side_levels (market StpMode.none) (opposite Side.buy))
unfolding opposite
market-keyed = (refl, (refl, tt))

within_limit_example :
    All
      (λ t.
        beyond_limit Side.buy (limit_price (MatchMode.base_qty 10 (some 100))) (fifo.trade_price t)
        ≡ false)
      (fifo.trades bought.result)
within_limit_example =
    match_order_inner-within_limit fifo fifo-laws (market StpMode.none) 50 Side.buy
      (MatchMode.base_qty 10 (some 100)) 9 TakerKind.standard bought market-keyed bought-ok

within_amount_example :
    sum_of (λ t. fifo.trade_price t * fifo.trade_quantity t) (fifo.trades spent.result) ≤ 1000
within_amount_example =
    match_order_inner-within_amount fifo fifo-laws (market StpMode.none) 50 Side.buy 1000 9
      TakerKind.standard spent (omega arith) market-keyed spent-ok

post_only_example :
    let (r, b') =
      match_order_inner fifo
        (market StpMode.cancel_taker)
        50
        Side.buy
        (MatchMode.base_qty 10 (some 100))
        8
        TakerKind.post_only in
    (b'.bids ≡ (market StpMode.cancel_taker).bids)
    × (b'.asks ≡ (market StpMode.cancel_taker).asks)
    × ((o : MatchOutcome fifo) → r ≡ ok o → fifo.trades o.result ≡ [])
post_only_example =
    match_order_inner-post_only fifo fifo-laws (market StpMode.cancel_taker) 50 Side.buy
      (MatchMode.base_qty 10 (some 100)) 8
