-- ===== src/Error.antt =====
-- src/orderbook/error.rs: the errors of the order book. An error of the `pricelevel` crate is kept
-- as its text.
use Prim.Native.String.{String}
use order_book_rs.Prelude.{ℕ, Option}
use order_book_rs.Types.{Side}

-- src/orderbook/stp.rs: what happens to a self-trade.
pub data StpMode : Type 0 where
  none cancel_taker cancel_maker cancel_both : StpMode

pub data BookError : Type 0 where
  price_level_error order_not_found : String → BookError
  invalid_price_level : ℕ → BookError
  price_crossing : ℕ → Side → ℕ → BookError
  insufficient_liquidity : Side → ℕ → ℕ → BookError
  insufficient_liquidity_notional : Side → ℕ → ℕ → BookError
  invalid_operation : String → BookError
  kill_switch_active : BookError
  serialization_error deserialization_error : String → BookError
  checksum_mismatch : String → String → BookError
  invalid_tick_size : ℕ → ℕ → BookError
  invalid_lot_size : ℕ → ℕ → BookError
  order_size_out_of_range : ℕ → Option ℕ → Option ℕ → BookError
  duplicate_order_id : ℕ → BookError
  quantity_overflow : ℕ → ℕ → BookError
  missing_user_id : ℕ → BookError
  self_trade_prevented : StpMode → ℕ → ℕ → BookError
  risk_max_open_orders : ℕ → ℕ → ℕ → BookError
  risk_max_notional : ℕ → ℕ → ℕ → ℕ → BookError
  risk_price_band : ℕ → ℕ → ℕ → ℕ → BookError
  nats_publish_error nats_serialization_error : String → BookError
