-- ===== src/RejectReason.antt =====
-- src/orderbook/reject_reason.rs: the closed set of reject reasons, its wire codes, and the reason
-- of each error.
pub mod Codes
use order_book_rs.Prelude.{ℕ, ◌==◌, if◌then◌else◌}
use order_book_rs.Error.{BookError}

pub data RejectReason : Type 0 where
  kill_switch_active risk_max_open_orders risk_max_notional risk_price_band : RejectReason
  post_only_would_cross self_trade_prevention invalid_price invalid_quantity : RejectReason
  invalid_price_level order_size_out_of_range missing_user_id duplicate_order_id : RejectReason
  insufficient_liquidity : RejectReason
  other : ℕ → RejectReason

pub as_u16 : RejectReason → ℕ
as_u16 RejectReason.kill_switch_active = 1
as_u16 RejectReason.risk_max_open_orders = 2
as_u16 RejectReason.risk_max_notional = 3
as_u16 RejectReason.risk_price_band = 4
as_u16 RejectReason.post_only_would_cross = 5
as_u16 RejectReason.self_trade_prevention = 6
as_u16 RejectReason.invalid_price = 7
as_u16 RejectReason.invalid_quantity = 8
as_u16 RejectReason.invalid_price_level = 9
as_u16 RejectReason.order_size_out_of_range = 10
as_u16 RejectReason.missing_user_id = 11
as_u16 RejectReason.duplicate_order_id = 12
as_u16 RejectReason.insufficient_liquidity = 13
as_u16 (RejectReason.other code) = code

pub from_u16 : ℕ → RejectReason
from_u16 code =
    if code == 1
    then RejectReason.kill_switch_active
    else if code == 2
    then RejectReason.risk_max_open_orders
    else if code == 3
    then RejectReason.risk_max_notional
    else if code == 4
    then RejectReason.risk_price_band
    else if code == 5
    then RejectReason.post_only_would_cross
    else if code == 6
    then RejectReason.self_trade_prevention
    else if code == 7
    then RejectReason.invalid_price
    else if code == 8
    then RejectReason.invalid_quantity
    else if code == 9
    then RejectReason.invalid_price_level
    else if code == 10
    then RejectReason.order_size_out_of_range
    else if code == 11
    then RejectReason.missing_user_id
    else if code == 12
    then RejectReason.duplicate_order_id
    else if code == 13
    then RejectReason.insufficient_liquidity
    else RejectReason.other code

-- `From<&OrderBookError>`
pub of_error : BookError → RejectReason
of_error BookError.kill_switch_active = RejectReason.kill_switch_active
of_error (BookError.risk_max_open_orders a c l) = RejectReason.risk_max_open_orders
of_error (BookError.risk_max_notional a c t l) = RejectReason.risk_max_notional
of_error (BookError.risk_price_band s r d l) = RejectReason.risk_price_band
of_error (BookError.self_trade_prevented m t u) = RejectReason.self_trade_prevention
of_error (BookError.invalid_price_level p) = RejectReason.invalid_price_level
of_error (BookError.price_crossing p s o) = RejectReason.post_only_would_cross
of_error (BookError.insufficient_liquidity s r a) = RejectReason.insufficient_liquidity
of_error (BookError.insufficient_liquidity_notional s r a) = RejectReason.insufficient_liquidity
of_error (BookError.invalid_tick_size p t) = RejectReason.invalid_price
of_error (BookError.invalid_lot_size q l) = RejectReason.invalid_quantity
of_error (BookError.quantity_overflow v h) = RejectReason.invalid_quantity
of_error (BookError.order_size_out_of_range q l h) = RejectReason.order_size_out_of_range
of_error (BookError.duplicate_order_id i) = RejectReason.duplicate_order_id
of_error (BookError.missing_user_id i) = RejectReason.missing_user_id
of_error (BookError.price_level_error e) = RejectReason.other 0
of_error (BookError.order_not_found i) = RejectReason.other 0
of_error (BookError.invalid_operation m) = RejectReason.other 0
of_error (BookError.serialization_error m) = RejectReason.other 0
of_error (BookError.deserialization_error m) = RejectReason.other 0
of_error (BookError.checksum_mismatch e a) = RejectReason.other 0
of_error (BookError.nats_publish_error m) = RejectReason.other 0
of_error (BookError.nats_serialization_error m) = RejectReason.other 0
