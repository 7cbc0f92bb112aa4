-- ===== src/Wire.antt =====
-- src/wire/mod.rs and src/wire/error.rs: the kinds of message with their bytes, and the errors of
-- the binary protocol.
pub mod Framing
pub mod Kinds
use Prim.Native.String.{String}
use order_book_rs.Prelude.{ℕ, Bool, ◌==◌, ltb, leb, if◌then◌else◌}
use order_book_rs.Prelude.Result.{Result, ok, err}

pub data WireError : Type 0 where
  truncated : WireError
  unknown_kind : ℕ → WireError
  invalid_payload : String → WireError

pub data MessageKind : Type 0 where
  new_order cancel_order cancel_replace mass_cancel : MessageKind
  exec_report trade_print book_update : MessageKind

pub from_u8 : ℕ → Result WireError MessageKind
from_u8 byte =
    if byte == 1
    then ok MessageKind.new_order
    else if byte == 2
    then ok MessageKind.cancel_order
    else if byte == 3
    then ok MessageKind.cancel_replace
    else if byte == 4
    then ok MessageKind.mass_cancel
    else if byte == 129
    then ok MessageKind.exec_report
    else if byte == 130
    then ok MessageKind.trade_print
    else if byte == 131
    then ok MessageKind.book_update
    else err (WireError.unknown_kind byte)

pub as_u8 : MessageKind → ℕ
as_u8 MessageKind.new_order = 1
as_u8 MessageKind.cancel_order = 2
as_u8 MessageKind.cancel_replace = 3
as_u8 MessageKind.mass_cancel = 4
as_u8 MessageKind.exec_report = 129
as_u8 MessageKind.trade_print = 130
as_u8 MessageKind.book_update = 131

pub is_inbound : MessageKind → Bool
is_inbound kind = ltb (as_u8 kind) 128

pub is_outbound : MessageKind → Bool
is_outbound kind = leb 128 (as_u8 kind)
