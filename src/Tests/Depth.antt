-- ===== src/Tests/Depth.antt =====
-- The properties of the dry runs, of the tranches and of the cancel, at the test market.
use order_book_rs.Prelude.{
  ◌+◌, ◌≤◌, ◌≡◌, refl, true, false, ◌&&◌, none, some, ◌==◌, if◌then◌else◌, min, arith,
}
use order_book_rs.Prelude.Maps.{lookup}
use order_book_rs.Prelude.Result.{ok}
use order_book_rs.Types.{Side, opposite, OrderKind, TakerKind}
use order_book_rs.Error.{StpMode}
use order_book_rs.Stp.{is_enabled}
use order_book_rs.OrderState.{CancelReason}
use order_book_rs.Orders.{total_quantity, checked_total_quantity, set_total_remaining}
use order_book_rs.Orders.Tranches.{set_total_remaining-total}
use order_book_rs.Book.{Book, side_levels}
use order_book_rs.Matching.Budget.{MatchMode, round_lot}
use order_book_rs.Matching.Walk.{beyond_limit}
use order_book_rs.Matching.Submit.{MatchOutcome, match_order_inner, best_first}
use order_book_rs.Matching.DryRun.{peek_match, fok_fillable_quantity, fillable, reachable}
use order_book_rs.Matching.DryRun.Peek.{depth_within, peek_match-depth}
use order_book_rs.Matching.DryRun.Exact.{fok_fillable_quantity-exact, fok_fillable_quantity-fills}
use order_book_rs.Cancel.{cancel_order_with_reason}
use order_book_rs.Cancel.Effects.{cancel_order-located, is_found}
use order_book_rs.Tests.Fifo.{fifo, fifo-laws}
use order_book_rs.Tests.Market.{market, bought, bought-ok}

abbrev pub quiet : Book fifo
quiet = market StpMode.none

peek_example :
    peek_match fifo quiet Side.buy 10 (some 100)
    ≡ min 10 (
        depth_within fifo Side.buy
          (some 100)
          (best_first Side.buy (side_levels quiet (opposite Side.buy))))
peek_example = peek_match-depth fifo quiet Side.buy 10 (some 100) (omega arith)

no_stp : (is_enabled quiet.stp_mode && true) ≡ false
unfolding is_enabled
no_stp = refl

exact_example :
    fok_fillable_quantity fifo quiet Side.buy 10 (some 100) 9 50
      + fifo.remaining_quantity bought.result
    ≡ 10
exact_example =
    fok_fillable_quantity-exact fifo fifo-laws quiet 50 Side.buy 10 (some 100) 9 no_stp
      (omega arith) bought bought-ok

eight-full : 8 ≤ fok_fillable_quantity fifo quiet Side.buy 8 (some 100) 9 50
unfolding fok_fillable_quantity fillable reachable round_lot beyond_limit best_first opposite
    is_enabled
eight-full = omega arith

fills_example :
    (o : MatchOutcome fifo) × ((match_order_inner fifo quiet 50 Side.buy
        (MatchMode.base_qty 8 (some 100))
        9
        TakerKind.standard).0
      ≡ ok o)
    × (fifo.remaining_quantity o.result ≡ 0)
fills_example =
    fok_fillable_quantity-fills fifo fifo-laws quiet 50 Side.buy 8 (some 100) 9 no_stp (omega arith)
      (omega arith) eight-full

-- A reserve that shows 10 and hides 40.
abbrev reserve : OrderKind
reserve = OrderKind.reserve 10 40 (some 15) true

reserve-total : checked_total_quantity reserve ≡ some 50
unfolding checked_total_quantity
reserve-total = refl

tranches_example :
    (total_quantity reserve ≡ 50) × (total_quantity (set_total_remaining reserve 33) ≡ 33)
tranches_example = set_total_remaining-total reserve 50 33 reserve-total (omega arith) (omega arith)

located_example :
    let (o, b') = cancel_order_with_reason fifo quiet 2 CancelReason.user_requested in
    lookup 1 b'.order_locations
    ≡ (if is_found fifo o && 2 == 1 then none else lookup 1 quiet.order_locations)
located_example = cancel_order-located fifo quiet 2 CancelReason.user_requested 1
