-- ===== src/Tests/Market.antt =====
-- A book of first-in-first-out levels, and the matches of the tests against it.
use order_book_rs.Prelude.{ℕ, true, false, none, some, List, [], ◌∷◌, ◌≡◌, refl}
use order_book_rs.Prelude.Result.{ok}
use order_book_rs.Types.{Side, opposite, Order, OrderKind, TimeInForce, TakerKind}
use order_book_rs.Error.{StpMode}
use order_book_rs.Risk.{new}
use order_book_rs.Book.{Book}
use order_book_rs.Matching.Budget.{
  MatchMode, limit_price, level_qty_cap, from_mode, is_done, consume, initial_match_quantity,
}
use order_book_rs.Matching.Level.{execute}
use order_book_rs.Matching.Walk.{round, beyond_limit}
use order_book_rs.Stp.{is_enabled}
use order_book_rs.Matching.Submit.{MatchOutcome, best_first, match_order_inner}
use order_book_rs.Tests.Fifo.{Fill, Queue, fifo}

abbrev pub resting : ℕ → ℕ → Side → ℕ → ℕ → Order
resting id user side price quantity = record {
  id = id;
  user_id = user;
  price = price;
  side = side;
  timestamp = 0;
  time_in_force = TimeInForce.gtc;
  kind = OrderKind.standard quantity;
}

abbrev pub level_at : ℕ → List Order → Queue
level_at price orders = record { price = price; orders = orders }

-- A bid at 99, and asks at 100 and at 101 of two accounts.
abbrev pub market : StpMode → Book fifo
market mode = record {
  bids = (99, level_at 99 (resting 4 8 Side.buy 99 6 ∷ [])) ∷ [];
  asks =
      (100, level_at 100 (resting 1 7 Side.sell 100 5 ∷ resting 2 8 Side.sell 100 3 ∷ []))
      ∷ (101, level_at 101 (resting 3 7 Side.sell 101 4 ∷ []))
      ∷ [];
  order_locations =
      (1, (100, Side.sell))
      ∷ (2, (100, Side.sell))
      ∷ (3, (101, Side.sell))
      ∷ (4, (99, Side.buy))
      ∷ [];
  user_orders = (7, 1 ∷ 3 ∷ []) ∷ (8, 2 ∷ 4 ∷ []) ∷ [];
  generator = 0;
  engine_seq = 0;
  kill_switch = false;
  risk_state = new;
  last_trade_price = 0;
  has_traded = false;
  market_close_timestamp = 0;
  has_market_close = false;
  cache = record { best_bid_price = 0; best_ask_price = 0; bid_valid = false; ask_valid = false };
  has_trade_listener = false;
  has_level_listener = true;
  level_events = [];
  trade_events = [];
  pegged_orders = [];
  trailing_stops = [];
  tick_size = none;
  lot_size = none;
  min_order_size = none;
  max_order_size = none;
  stp_mode = mode;
  fee_schedule = none;
  tracker = none;
  clock = record { reading = λ n. n; reads = 0 };
}

abbrev pub fill : ℕ → ℕ → ℕ → Fill
fill maker quantity price = record { maker = maker; quantity = quantity; price = price }

abbrev outcome_of : List Fill → List ℕ → ℕ → MatchOutcome fifo
outcome_of fills filled remaining = record {
  result = record { fills = fills; filled = filled; remaining = remaining; rejected = false };
  taker_stp_cancelled = false;
  taker_post_only_rejected = false;
}

-- A buyer of 10 at 100 takes the whole level and keeps 2.
abbrev pub bought : MatchOutcome fifo
bought = outcome_of (fill 1 5 100 ∷ fill 2 3 100 ∷ []) (1 ∷ 2 ∷ []) 2

pub bought-ok :
    (match_order_inner fifo
      (market StpMode.none)
      50
      Side.buy
      (MatchMode.base_qty 10 (some 100))
      9
      TakerKind.standard).0
    ≡ ok bought
unfolding match_order_inner opposite best_first round beyond_limit limit_price level_qty_cap
    from_mode is_enabled is_done execute consume initial_match_quantity
bought-ok = refl

-- A buyer for 1000 takes the level at 100 and one unit of the next.
abbrev pub spent : MatchOutcome fifo
spent = outcome_of (fill 1 5 100 ∷ fill 2 3 100 ∷ fill 3 1 101 ∷ []) (1 ∷ 2 ∷ []) 0

pub spent-ok :
    (match_order_inner fifo
      (market StpMode.none)
      50
      Side.buy
      (MatchMode.quote_amount 1000)
      9
      TakerKind.standard).0
    ≡ ok spent
unfolding match_order_inner opposite best_first round beyond_limit limit_price level_qty_cap
    from_mode is_enabled is_done execute consume initial_match_quantity
spent-ok = refl
