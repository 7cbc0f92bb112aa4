-- ===== src/Matching/Level.antt =====
-- What the engine does with one level match: the result, the risk counters, the events, and the
-- cancel of a resting maker (src/orderbook/matching.rs, src/orderbook/modifications.rs).
use order_book_rs.Prelude.{
  ℕ, ◌-◌, Bool, true, Option, none, some, List, [], ◌∷◌, ◌++◌, ◌==◌, if◌then◌else◌, keep, sum_of,
}
use order_book_rs.Prelude.Maps.{erase}
use order_book_rs.Types.{Side, opposite, TakerKind, Order}
use order_book_rs.PriceLevel.{PriceLevels}
use order_book_rs.Risk.{RiskState, on_fill, on_cancel}
use order_book_rs.OrderState.{OrderStatus, CancelReason}
use order_book_rs.Book.{
  Book, invalidate, emit_level_change, track_state, prior_fill, untrack_user_order, without,
}
use order_book_rs.Matching.Budget.{StopCondition, consume}

-- What a match carries from level to level.
pub record Sweep (P : PriceLevels) : Type 0 where
  pub book : Book P
  pub result : P.MatchResult
  pub stop : StopCondition
  pub filled_orders : List (ℕ × ℕ)
  pub empty_prices : List ℕ
  pub stp_taker_cancelled : Bool
  pub post_only_rejected : Bool

-- What is fixed for a match.
pub record Taker : Type 0 where
  pub order_id : ℕ
  pub side : Side
  pub limit : Option ℕ
  pub lot : ℕ
  pub user_id : ℕ
  pub kind : TakerKind
  pub stp_active : Bool
  pub timestamp : ℕ

module _ (P : PriceLevels) where
  open P use {
    Trade, maker_order_id, trade_quantity, MatchResult, trades, filled_order_ids,
    remaining_quantity, add_trade, add_filled_order_id, Level, level_price, order_count,
    match_order, cancel,
  }

  -- `let _ = match_result.add_trade(*trade)`: an error is ignored.
  unfoldable pub add_or_keep : MatchResult → Trade → MatchResult
  add_or_keep r t = elim (add_trade r t) [ none ↦ r | some r' ↦ r' ]

  unfoldable pub add_trades : MatchResult → List Trade → MatchResult
  unfolding add_or_keep
  add_trades r [] = r
  add_trades r (t ∷ ts) = add_trades (add_or_keep r t) ts

  unfoldable pub add_filled : MatchResult → List ℕ → MatchResult
  add_filled r [] = r
  add_filled r (id ∷ ids) = add_filled (add_filled_order_id r id) ids

  -- The risk counters after the maker side of every trade.
  unfoldable pub release_fills : RiskState → List Trade → RiskState
  release_fills s [] = s
  release_fills s (t ∷ ts) = release_fills (on_fill s (maker_order_id t) (trade_quantity t)) ts

  -- Each fully consumed maker with the sum of its trades of this level match.
  unfoldable pub filled_with : List Trade → List ℕ → List (ℕ × ℕ)
  filled_with ts [] = []
  filled_with ts (id ∷ ids) =
      (id, sum_of trade_quantity (keep (λ t. maker_order_id t == id) ts)) ∷ filled_with ts ids

  -- The book after the trades of a level match, if there were any.
  unfoldable pub record_trades : Book P → Side → ℕ → Level → List Trade → Book P
  unfolding release_fills
  record_trades b side price level [] = b
  record_trades b side price level (t ∷ ts) =
      emit_level_change
        (record b {
          last_trade_price = price;
          has_traded = true;
          risk_state = release_fills b.risk_state (t ∷ ts);
        })
        (opposite side) level

  -- `process_level_match`
  unfoldable pub process_level_match : Sweep P → MatchResult → ℕ → Level → Side → Sweep P
  unfolding record_trades add_trades add_filled filled_with
  process_level_match w m price level side = record w {
    book = record_trades w.book side price level (trades m);
    result = add_filled (add_trades w.result (trades m)) (filled_order_ids m);
    filled_orders = w.filled_orders ++ filled_with (trades m) (filled_order_ids m);
    empty_prices = if order_count level == 0 then w.empty_prices ++ price ∷ [] else w.empty_prices;
  }

  -- A level match of a quantity, its processing, and the deduction from the budget.
  unfoldable pub execute : Taker → ℕ → ℕ → Level → Sweep P → Level × Sweep P
  unfolding process_level_match
  execute k price qty level w =
      let (m, level', gen) = match_order level qty k.order_id k.kind k.timestamp w.book.generator in
      let w' =
        process_level_match (record w { book = record w.book { generator = gen } }) m price level'
          k.side in
      (level', record w' { stop = consume w'.stop (qty - remaining_quantity m) price })

  -- `cancel_resting_maker_on_level`; `side` is the maker's.
  unfoldable pub cancel_resting_maker : Level → Side → ℕ → CancelReason → Book P → Level × Book P
  cancel_resting_maker level side order_id reason b = elim (cancel level order_id) [
    | none ↦ (level, b)
    | some (cancelled, level') ↦
        let b' = emit_level_change (record b { cache = invalidate b.cache }) side level' in
        (
          level',
          record b' {
            tracker =
                track_state b'.tracker order_id
                  (OrderStatus.cancelled (prior_fill b'.tracker order_id) reason);
            order_locations = erase order_id b'.order_locations;
            risk_state = on_cancel b'.risk_state order_id;
            user_orders = untrack_user_order cancelled.user_id order_id b'.user_orders;
            pegged_orders = without order_id b'.pegged_orders;
            trailing_stops = without order_id b'.trailing_stops;
          },
        )
  ]

  -- The loop of `CancelMaker`: each order of the taker's account, in insertion order.
  unfoldable pub cancel_own_makers : List Order → ℕ → Side → Level → Book P → Level × Book P
  unfolding cancel_resting_maker
  cancel_own_makers [] user side level b = (level, b)
  cancel_own_makers (o ∷ orders) user side level b =
      let (level', b') =
        (if o.user_id == user
          then cancel_resting_maker level side o.id CancelReason.self_trade_prevention b
          else (level, b)) in
      cancel_own_makers orders user side level' b'
