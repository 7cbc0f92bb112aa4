-- ===== src/Wire/Kinds.antt =====
-- The kinds of message and their bytes.
use order_book_rs.Prelude.{ℕ, ◌≡◌, ◌↔◌, refl, ap, sym, ◌∙◌, not, arith}
use order_book_rs.Prelude.Result.{ok}
use order_book_rs.Wire.{MessageKind, from_u8, as_u8, is_inbound, is_outbound}

from_u8-as_u8 : (k : MessageKind) → from_u8 (as_u8 k) ≡ ok k
unfolding from_u8 as_u8
from_u8-as_u8 MessageKind.new_order = refl
from_u8-as_u8 _ = refl

as_u8-from_u8 : (byte : ℕ) (k : MessageKind) → from_u8 byte ≡ ok k → as_u8 k ≡ byte
unfolding from_u8 as_u8
as_u8-from_u8 byte k h = ground arith

-- A byte resolves to a kind just when it is the byte of the kind.
pub from_u8_iff : (byte : ℕ) (k : MessageKind) → (from_u8 byte ≡ ok k) ↔ (as_u8 k ≡ byte)
from_u8_iff byte k = (as_u8-from_u8 byte k, λ e. ap from_u8 (sym e) ∙ from_u8-as_u8 k)

-- Every kind has one direction.
is_outbound-not : (k : MessageKind) → is_outbound k ≡ not (is_inbound k)
unfolding is_inbound is_outbound as_u8
is_outbound-not MessageKind.new_order = refl
is_outbound-not _ = refl
