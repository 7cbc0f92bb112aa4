-- ===== src/Book.antt =====
-- src/orderbook/book.rs: the state of the order book, and the bookkeeping that its operations share
-- (src/orderbook/private.rs, src/orderbook/cache.rs). A side is a map from price to level in ascending
-- order of price; what a listener is told is a log, newest first. The symbol is left out: it is copied
-- into trade reports and read by nothing. Calls run one after another, as the submit gate has it for
-- the calls that must not interleave.
use order_book_rs.Prelude.{
  ℕ, ◌+◌, ◌%◌, ◌^◌, Bool, true, false, Option, none, some, List, [], ◌∷◌, ◌++◌, ◌==◌, if◌then◌else◌,
  keep, not,
}
use order_book_rs.Prelude.Maps.{Map, lookup, insert, erase}
use order_book_rs.Types.{Side}
use order_book_rs.Error.{StpMode}
use order_book_rs.PriceLevel.{PriceLevels}
use order_book_rs.Risk.{RiskState}
use order_book_rs.OrderState.{Tracker, OrderStatus, transition, get, filled_quantity}
use order_book_rs.Fees.{FeeSchedule}
use order_book_rs.Clock.{Clock}

-- `PriceLevelCache`: best prices with their validity.
pub record PriceLevelCache : Type 0 where
  pub best_bid_price : ℕ
  pub best_ask_price : ℕ
  pub bid_valid : Bool
  pub ask_valid : Bool

unfoldable pub invalidate : PriceLevelCache → PriceLevelCache
invalidate c = record c { bid_valid = false; ask_valid = false }

unfoldable pub get_cached_best_bid : PriceLevelCache → Option ℕ
get_cached_best_bid c = if c.bid_valid then some c.best_bid_price else none

unfoldable pub get_cached_best_ask : PriceLevelCache → Option ℕ
get_cached_best_ask c = if c.ask_valid then some c.best_ask_price else none

unfoldable pub update_best_bid : PriceLevelCache → Option ℕ → PriceLevelCache
update_best_bid c none = record c { bid_valid = false }
update_best_bid c (some p) = record c { best_bid_price = p; bid_valid = true }

unfoldable pub update_best_ask : PriceLevelCache → Option ℕ → PriceLevelCache
update_best_ask c none = record c { ask_valid = false }
update_best_ask c (some p) = record c { best_ask_price = p; ask_valid = true }

-- `PriceLevelChangedEvent`
pub record LevelEvent : Type 0 where
  pub side : Side
  pub price : ℕ
  pub quantity : ℕ
  pub engine_seq : ℕ

pub record Book (P : PriceLevels) : Type 0 where
  pub bids : Map P.Level
  pub asks : Map P.Level
  pub order_locations : Map (ℕ × Side)
  pub user_orders : Map (List ℕ)
  pub generator : ℕ
  pub engine_seq : ℕ
  pub kill_switch : Bool
  pub risk_state : RiskState
  pub last_trade_price : ℕ
  pub has_traded : Bool
  pub market_close_timestamp : ℕ
  pub has_market_close : Bool
  pub cache : PriceLevelCache
  pub has_trade_listener : Bool
  pub has_level_listener : Bool
  pub level_events : List LevelEvent
  pub trade_events : List (ℕ × P.MatchResult)
  pub pegged_orders : List ℕ
  pub trailing_stops : List ℕ
  pub tick_size : Option ℕ
  pub lot_size : Option ℕ
  pub min_order_size : Option ℕ
  pub max_order_size : Option ℕ
  pub stp_mode : StpMode
  pub fee_schedule : Option FeeSchedule
  pub tracker : Option Tracker
  pub clock : Clock

-- `ids.retain(|id| id != order_id)`
abbrev pub without : ℕ → List ℕ → List ℕ
without id = keep λ i. not (i == id)

-- The list with its last element moved to the front, as `swap_remove` fills the gap.
abbrev last_first : List ℕ → List ℕ
last_first [] = []
last_first (y ∷ []) = y ∷ []
last_first (y ∷ z ∷ ys) = elim (last_first (z ∷ ys)) [ [] ↦ [] | l ∷ ls ↦ l ∷ y ∷ ls ]

-- `ids.swap_remove(position of id)`, if there is one.
abbrev pub swap_remove : ℕ → List ℕ → Option (List ℕ)
swap_remove id [] = none
swap_remove id (x ∷ xs) =
    if x == id
    then some (last_first xs)
    else elim (swap_remove id xs) [ none ↦ none | some rest ↦ some (x ∷ rest) ]

-- `untrack_order_by_id`: from the first account that lists it, which goes if it lists nothing else.
unfoldable pub untrack_order_by_id : ℕ → Map (List ℕ) → Map (List ℕ)
untrack_order_by_id id [] = []
untrack_order_by_id id ((user, ids) ∷ m) = elim (swap_remove id ids) [
  | none ↦ (user, ids) ∷ untrack_order_by_id id m
  | some [] ↦ m
  | some (x ∷ rest) ↦ (user, x ∷ rest) ∷ m
]

-- `untrack_user_order`
unfoldable pub untrack_user_order : ℕ → ℕ → Map (List ℕ) → Map (List ℕ)
untrack_user_order user id m = elim (lookup user m) [
  | none ↦ m
  | some ids ↦ elim (without id ids) [ [] ↦ erase user m | x ∷ rest ↦ insert user (x ∷ rest) m ]
]

-- `track_user_order`
unfoldable pub track_user_order : ℕ → ℕ → Map (List ℕ) → Map (List ℕ)
track_user_order user id m = elim (lookup user m) [
  | none ↦ insert user (id ∷ []) m
  | some ids ↦ insert user (ids ++ id ∷ []) m
]

-- `track_state`: a no-op without a tracker.
unfoldable pub track_state : Option Tracker → ℕ → OrderStatus → Option Tracker
track_state none id status = none
track_state (some t) id status = some (transition t id status)

-- The filled quantity that the tracker knows of an order.
unfoldable pub prior_fill : Option Tracker → ℕ → ℕ
prior_fill none id = 0
prior_fill (some t) id = elim (get t id) [ none ↦ 0 | some status ↦ filled_quantity status ]

-- The log of price-level changes with its sequence counter.
pub record Feed : Type 0 where
  pub seq : ℕ
  pub events : List LevelEvent

-- A change is reported under the next engine sequence number, if a listener is there.
unfoldable pub notify : Bool → Feed → Side → ℕ → ℕ → Feed
notify false f side price quantity = f
notify true f side price quantity = record {
  seq = (f.seq + 1) % 2 ^ 64;
  events =
      record { side = side; price = price; quantity = quantity; engine_seq = f.seq } ∷ f.events;
}

-- `match side`
abbrev pub by_side {ℓ} : {A : Type ℓ} → Side → A → A → A
by_side Side.buy x y = x
by_side Side.sell x y = y

module _ {P : PriceLevels} where
  abbrev pub feed_of : Book P → Feed
  feed_of b = record { seq = b.engine_seq; events = b.level_events }

  -- Tell the listener of a level that changed.
  unfoldable pub emit_level_change : Book P → Side → P.Level → Book P
  unfolding notify
  emit_level_change b side level =
      let f =
        notify b.has_level_listener (feed_of b) side (P.level_price level)
          (P.level_visible level) in
      record b { engine_seq = f.seq; level_events = f.events }

  abbrev pub side_levels : Book P → Side → Map P.Level
  side_levels b side = by_side side b.bids b.asks

  abbrev pub put_side : Book P → Side → Map P.Level → Book P
  put_side b side levels = record b {
    bids = by_side side levels b.bids;
    asks = by_side side b.asks levels;
  }
