-- ===== src/Wire/Framing.antt =====
-- src/wire/framing.rs: a frame is a little-endian length of four bytes, a kind byte and a payload.
-- A byte is a number; the writer is a growing buffer, which takes all that is written.
pub mod Trips
pub mod Reading
use order_book_rs.Prelude.{
  ℕ, zero, suc, ◌+◌, ◌*◌, ◌-◌, ◌/◌, ◌%◌, List, [], ◌∷◌, ◌++◌, length, take, drop, leb, ltb, not,
  if◌then◌else◌,
}
use order_book_rs.Prelude.Words.{u32_max, u64_max}
use order_book_rs.Prelude.Result.{Result, ok, err, ◌>>=◌, ◌>>◌, guard}
use order_book_rs.Wire.{WireError}

-- The `count` low bytes of a number, the least first: `to_le_bytes`.
abbrev pub to_le_bytes : ℕ → ℕ → List ℕ
to_le_bytes zero n = []
to_le_bytes (suc count) n = (n % 256) ∷ to_le_bytes count (n / 256)

-- `from_le_bytes`
abbrev pub from_le_bytes : List ℕ → ℕ
from_le_bytes [] = 0
from_le_bytes (b ∷ bs) = b + 256 * from_le_bytes bs

abbrev pub len_prefix : ℕ
len_prefix = 4

abbrev pub kind_size : ℕ
kind_size = 1

abbrev pub min_frame_size : ℕ
min_frame_size = len_prefix + kind_size

-- `io::ErrorKind::InvalidInput`
pub data IoError : Type 0 where
  invalid_input : IoError

pub encode_frame : ℕ → List ℕ → List ℕ → Result IoError (List ℕ)
encode_frame kind payload out = do
  guard (leb (length payload + kind_size) u64_max) IoError.invalid_input
  guard (leb (length payload + kind_size) u32_max) IoError.invalid_input
  ok (out ++ (to_le_bytes 4 (length payload + kind_size) ++ (kind ∷ payload)))

-- `get(first..last)`: nothing unless the range lies in the buffer.
abbrev pub slice : ℕ → ℕ → List ℕ → Result WireError (List ℕ)
slice first last buf =
    if leb last (length buf)
    then ok (take (last - first) (drop first buf))
    else err WireError.truncated

-- `get(index)`
abbrev pub byte_at : ℕ → List ℕ → Result WireError ℕ
byte_at i [] = err WireError.truncated
byte_at zero (b ∷ bs) = ok b
byte_at (suc i) (b ∷ bs) = byte_at i bs

-- The kind, the payload, and the bytes consumed.
pub decode_frame : List ℕ → Result WireError (ℕ × List ℕ × ℕ)
decode_frame buf = do
  guard (not (ltb (length buf) min_frame_size)) WireError.truncated
  len_bytes ← slice 0 len_prefix buf
  let body_len = from_le_bytes len_bytes
  guard (not (ltb body_len kind_size)) (WireError.invalid_payload "frame body shorter than kind")
  guard (leb (len_prefix + body_len) u64_max) WireError.truncated
  guard (not (ltb (length buf) (len_prefix + body_len))) WireError.truncated
  kind ← byte_at len_prefix buf
  payload ← slice (len_prefix + kind_size) (len_prefix + body_len) buf
  ok (kind, payload, len_prefix + body_len)
