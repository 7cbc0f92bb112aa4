-- ===== src/Sequencer/Config.antt =====
-- A fresh book (`OrderBook::with_clock` of src/orderbook/book.rs) and the configuration that a replay
-- gives it (`ReplayBookConfig` of src/orderbook/sequencer/replay.rs).
use order_book_rs.Prelude.{ℕ, false, Option, none, some, []}
use order_book_rs.PriceLevel.{PriceLevels}
use order_book_rs.Error.{StpMode}
use order_book_rs.Clock.{Clock}
use order_book_rs.Fees.{FeeSchedule}
use order_book_rs.Risk
use order_book_rs.Book.{Book}

pub record ReplayBookConfig : Type 0 where
  pub fee_schedule : Option FeeSchedule
  pub stp_mode : StpMode
  pub tick_size : Option ℕ
  pub lot_size : Option ℕ
  pub min_order_size : Option ℕ
  pub max_order_size : Option ℕ
  pub trade_id_namespace : Option ℕ

module _ (P : PriceLevels) where
  -- A book with a clock, under the namespace that is drawn for it.
  unfoldable pub with_clock : ℕ → Clock → Book P
  unfolding Risk.new
  with_clock namespace clock = record {
    bids = [];
    asks = [];
    order_locations = [];
    user_orders = [];
    generator = P.new_generator namespace;
    engine_seq = 0;
    kill_switch = false;
    risk_state = Risk.new;
    last_trade_price = 0;
    has_traded = false;
    market_close_timestamp = 0;
    has_market_close = false;
    cache = record { best_bid_price = 0; best_ask_price = 0; bid_valid = false; ask_valid = false };
    has_trade_listener = false;
    has_level_listener = false;
    level_events = [];
    trade_events = [];
    pegged_orders = [];
    trailing_stops = [];
    tick_size = none;
    lot_size = none;
    min_order_size = none;
    max_order_size = none;
    stp_mode = StpMode.none;
    fee_schedule = none;
    tracker = none;
    clock = clock;
  }

  unfoldable pub set_trade_id_namespace : ℕ → Book P → Book P
  set_trade_id_namespace namespace b = record b { generator = P.new_generator namespace }

  -- A setter for each part; those of the size limits and of the namespace only where they are given.
  unfoldable pub apply_to : ReplayBookConfig → Book P → Book P
  unfolding set_trade_id_namespace
  apply_to config b =
      let set : Book P = record b {
        fee_schedule = config.fee_schedule;
        stp_mode = config.stp_mode;
        tick_size = config.tick_size;
        lot_size = config.lot_size;
      } in
      let least : Book P = elim config.min_order_size [
        | none ↦ set
        | some min ↦ record set { min_order_size = some min }
      ] in
      let most : Book P = elim config.max_order_size [
        | none ↦ least
        | some max ↦ record least { max_order_size = some max }
      ] in
      elim config.trade_id_namespace [
        | none ↦ most
        | some namespace ↦ set_trade_id_namespace namespace most
      ]
