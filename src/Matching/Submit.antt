-- ===== src/Matching/Submit.antt =====
-- `match_order_inner` and its entry points (src/orderbook/matching.rs).
use mathlib.Core.List.{reverse}
use order_book_rs.Prelude.{
  ℕ, Bool, true, false, ◌&&◌, not, Option, none, some, List, [], ◌∷◌, ◌==◌, if◌then◌else◌,
}
use order_book_rs.Prelude.Words.{u64_max, sat_add}
use order_book_rs.Prelude.Maps.{Map, erase}
use order_book_rs.Prelude.Result.{Result, ok, err}
use order_book_rs.Types.{Side, opposite, TakerKind}
use order_book_rs.Error.{BookError}
use order_book_rs.PriceLevel.{PriceLevels}
use order_book_rs.Clock.{now_millis}
use order_book_rs.Stp.{is_enabled}
use order_book_rs.OrderState.{OrderStatus, CancelReason}
use order_book_rs.Book.{Book, invalidate, track_state, untrack_order_by_id, side_levels, put_side}
use order_book_rs.Matching.Budget.{MatchMode, from_mode, limit_price, initial_match_quantity}
use order_book_rs.Matching.Level.{Sweep, Taker, add_filled}
use order_book_rs.Matching.Walk.{walk}

pub record MatchOutcome (P : PriceLevels) : Type 0 where
  pub result : P.MatchResult
  pub taker_stp_cancelled : Bool
  pub taker_post_only_rejected : Bool

-- Best price first: asks ascending for a buyer, bids descending for a seller. The same again turns
-- a side back.
unfoldable pub best_first {ℓ} : {A : Type ℓ} → Side → List A → List A
best_first Side.buy levels = levels
best_first Side.sell levels = reverse levels

-- `self.lot_size.unwrap_or(1)`
abbrev pub lot_or_one : Option ℕ → ℕ
lot_or_one none = 1
lot_or_one (some lot) = lot

abbrev pub is_empty {ℓ} : {A : Type ℓ} → List A → Bool
is_empty [] = true
is_empty (x ∷ xs) = false

abbrev pub erase_all {ℓ} : {V : Type ℓ} → List ℕ → Map V → Map V
erase_all [] m = m
erase_all (k ∷ ks) m = erase_all ks (erase k m)

-- What a market order that finds nothing is refused with; a limit order is not.
unfoldable pub shortfall : Side → MatchMode → Option BookError
shortfall side (MatchMode.base_qty quantity none) =
    some (BookError.insufficient_liquidity side quantity 0)
shortfall side (MatchMode.base_qty quantity (some limit)) = none
shortfall side (MatchMode.quote_amount amount) =
    some (BookError.insufficient_liquidity_notional side amount 0)

module _ (P : PriceLevels) where
  open P use {
    Trade, trade_quantity, MatchResult, new_result, trades, filled_order_ids, add_trade,
    add_filled_order_id, Level,
  }

  -- `Ok(MatchOutcome::resting(..))`, with what the walk says of the taker.
  abbrev outcome : MatchResult → Bool → Bool → Result BookError (MatchOutcome P)
  outcome r stp post =
      ok (record { result = r; taker_stp_cancelled = stp; taker_post_only_rejected = post })

  -- `empty_book_result`
  unfoldable pub empty_book_result :
      Side → MatchMode → MatchResult → Result BookError (MatchOutcome P)
  unfolding shortfall
  empty_book_result side mode r = elim (shortfall side mode) [
    | some e ↦ err e
    | none ↦ outcome r false false
  ]

  -- Add every trade, or nothing at all.
  unfoldable pub rebuild : MatchResult → List Trade → Option MatchResult
  rebuild r [] = some r
  rebuild r (t ∷ ts) = elim (add_trade r t) [ none ↦ none | some r' ↦ rebuild r' ts ]

  -- The fold of `saturating_add` over the traded quantities.
  unfoldable pub executed_sum : ℕ → List Trade → ℕ
  executed_sum acc [] = acc
  executed_sum acc (t ∷ ts) = executed_sum (sat_add u64_max acc (trade_quantity t)) ts

  -- `normalize_notional_match_result`
  unfoldable pub normalize : ℕ → MatchResult → MatchResult
  unfolding rebuild executed_sum
  normalize order_id src =
      elim (rebuild (new_result order_id (executed_sum 0 (trades src))) (trades src)) [
        | none ↦ src
        | some rebuilt ↦ add_filled P rebuilt (filled_order_ids src)
      ]

  -- Each filled maker is recorded with its quantity, and untracked.
  unfoldable pub settle : List (ℕ × ℕ) → Book P → Book P
  settle [] b = b
  settle ((id, quantity) ∷ filled) b = settle filled (record b {
    tracker = track_state b.tracker id (OrderStatus.filled quantity);
    order_locations = erase id b.order_locations;
    user_orders = untrack_order_by_id id b.user_orders;
  })

  unfoldable pub finish_result : ℕ → MatchMode → MatchResult → MatchResult
  unfolding normalize
  finish_result order_id (MatchMode.base_qty quantity limit) r = r
  finish_result order_id (MatchMode.quote_amount amount) r = normalize order_id r

  -- The end of the match, after the walk and the clean-up.
  unfoldable pub finish : Taker → MatchMode → Sweep P → Result BookError (MatchOutcome P) × Book P
  unfolding shortfall finish_result
  finish k mode w =
      let b = w.book in
      let no_fills = is_empty (trades w.result) in
      if w.stp_taker_cancelled && no_fills
      then (
        err (BookError.self_trade_prevented b.stp_mode k.order_id k.user_id),
        record b {
          tracker =
              track_state b.tracker k.order_id
                (OrderStatus.cancelled 0 CancelReason.self_trade_prevention);
        },
      )
      else elim (if no_fills then shortfall k.side mode else none) [
        | some e ↦ (err e, b)
        | none ↦ (
          outcome (finish_result k.order_id mode w.result) w.stp_taker_cancelled
              w.post_only_rejected,
          b,
        )
      ]

  -- The walk over the opposite side, and the removal of what it emptied and filled.
  unfoldable pub sweep : Taker → MatchMode → Book P → Sweep P
  unfolding walk settle
  sweep k mode b =
      let start : Sweep P = record {
        book = b;
        result = new_result k.order_id (initial_match_quantity mode);
        stop = from_mode mode;
        filled_orders = [];
        empty_prices = [];
        stp_taker_cancelled = false;
        post_only_rejected = false;
      } in
      let side = opposite k.side in
      let (levels, w) = walk P b.stp_mode k (best_first k.side (side_levels b side)) start in
      record w {
        book =
            settle w.filled_orders
              (put_side w.book side (erase_all w.empty_prices (best_first k.side levels)));
      }

  -- What a match fixes of its taker.
  abbrev pub taker_of : Book P → ℕ → Side → MatchMode → ℕ → TakerKind → Taker
  taker_of b order_id side mode user_id kind = record {
    order_id = order_id;
    side = side;
    limit = limit_price mode;
    lot = lot_or_one b.lot_size;
    user_id = user_id;
    kind = kind;
    stp_active = is_enabled b.stp_mode && not (user_id == 0);
    timestamp = (now_millis b.clock).0;
  }

  -- The book once the match has dropped the cached prices and read the clock.
  abbrev pub entered : Book P → Book P
  entered b = record b { cache = invalidate b.cache; clock = (now_millis b.clock).1 }

  unfoldable pub match_order_inner :
      Book P → ℕ → Side → MatchMode → ℕ → TakerKind → Result BookError (MatchOutcome P) × Book P
  unfolding sweep finish empty_book_result
  match_order_inner book order_id side mode user_id kind =
      let k = taker_of book order_id side mode user_id kind in
      let b = entered book in
      if is_empty (side_levels b (opposite side))
      then (empty_book_result side mode (new_result order_id (initial_match_quantity mode)), b)
      else finish k mode (sweep k mode b)

  -- `match_order_with_user_outcome`
  unfoldable pub match_order_with_user_outcome :
      Book P → ℕ → Side → ℕ → Option ℕ → ℕ → TakerKind → Result BookError (MatchOutcome P) × Book P
  unfolding match_order_inner
  match_order_with_user_outcome b order_id side quantity limit user_id kind =
      match_order_inner b order_id side (MatchMode.base_qty quantity limit) user_id kind

  -- `.map(|o| o.result)`
  abbrev pub result_only :
      Result BookError (MatchOutcome P) × Book P → Result BookError MatchResult × Book P
  result_only (ok o, b) = (ok o.result, b)
  result_only (err e, b) = (err e, b)

  -- `match_order_with_user`
  unfoldable pub match_order_with_user :
      Book P → ℕ → Side → ℕ → Option ℕ → ℕ → Result BookError MatchResult × Book P
  unfolding match_order_with_user_outcome
  match_order_with_user b order_id side quantity limit user_id =
      result_only
        (match_order_with_user_outcome b order_id side quantity limit user_id TakerKind.standard)

  -- `match_order`, for the anonymous account.
  unfoldable pub match_order :
      Book P → ℕ → Side → ℕ → Option ℕ → Result BookError MatchResult × Book P
  unfolding match_order_with_user_outcome
  match_order b order_id side quantity limit =
      result_only
        (match_order_with_user_outcome b order_id side quantity limit 0 TakerKind.standard)

  -- `match_order_by_amount_with_user`
  unfoldable pub match_order_by_amount_with_user :
      Book P → ℕ → Side → ℕ → ℕ → Result BookError MatchResult × Book P
  unfolding match_order_inner
  match_order_by_amount_with_user b order_id side amount user_id =
      result_only (
        match_order_inner b order_id side (MatchMode.quote_amount amount) user_id
          TakerKind.standard)
