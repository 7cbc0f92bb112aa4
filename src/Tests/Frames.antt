-- ===== src/Tests/Frames.antt =====
-- The frames and the kinds of the wire, at concrete inputs.
use order_book_rs.Prelude.{ℕ, ◌≡◌, List, [], ◌∷◌, ◌++◌, length, arith}
use order_book_rs.Prelude.Result.{ok}
use order_book_rs.Wire.Framing.{encode_frame, decode_frame}
use order_book_rs.Wire.Framing.Trips.{decode_frame-encode_frame}
use order_book_rs.Wire.Framing.Reading.{Reads, decode_frame-Reads}

-- A payload of three bytes.
abbrev payload : List ℕ
payload = 7 ∷ 255 ∷ 0 ∷ []

frame_example :
    (frame : List ℕ) × (encode_frame 2 payload (9 ∷ []) ≡ ok ((9 ∷ []) ++ frame))
    × (decode_frame (frame ++ (4 ∷ 0 ∷ [])) ≡ ok (2, payload, length frame))
frame_example = decode_frame-encode_frame 2 payload (9 ∷ []) (4 ∷ 0 ∷ []) (omega arith)

-- A frame of two bytes' body with a byte of the next frame after it.
abbrev received : List ℕ
received = 2 ∷ 0 ∷ 0 ∷ 0 ∷ 1 ∷ 66 ∷ 5 ∷ []

reading_example : Reads received (decode_frame received)
reading_example = decode_frame-Reads received (omega arith)
