-- ===== src/RejectReason/Codes.antt =====
-- The wire codes of the reject reasons, both ways.
use order_book_rs.Prelude.{ℕ, ◌≤◌, ◌≡◌, refl, ◌⊎◌, arith}
use order_book_rs.Error.{BookError}
use order_book_rs.RejectReason.{RejectReason, as_u16, from_u16, of_error}

-- Every code survives decoding and encoding again.
pub as_u16-from_u16 : (code : ℕ) → as_u16 (from_u16 code) ≡ code
unfolding as_u16 from_u16
as_u16-from_u16 code = ground arith

-- A reason that is not spelled `Other` with a code that is taken.
abbrev pub IsCanonical : RejectReason → Type 0
IsCanonical (RejectReason.other code) = (code ≡ 0) ⊎ (14 ≤ code)
IsCanonical _ = Unit

-- Decoding gives canonical reasons only.
pub from_u16-IsCanonical : (code : ℕ) → IsCanonical (from_u16 code)
unfolding from_u16
from_u16-IsCanonical code = ground arith

-- A canonical reason survives encoding and decoding.
pub from_u16-as_u16 : (r : RejectReason) → IsCanonical r → from_u16 (as_u16 r) ≡ r
unfolding as_u16 from_u16
from_u16-as_u16 (RejectReason.other code) h = ground arith
from_u16-as_u16 RejectReason.kill_switch_active h = refl
from_u16-as_u16 _ h = refl

-- The reason of an error is canonical, so the wire gives back the very reason.
pub of_error-roundtrip : (e : BookError) → from_u16 (as_u16 (of_error e)) ≡ of_error e
unfolding as_u16 from_u16 of_error
of_error-roundtrip BookError.kill_switch_active = refl
of_error-roundtrip _ = refl
