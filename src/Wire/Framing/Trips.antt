-- ===== src/Wire/Framing/Trips.antt =====
-- A frame, encoded and decoded again.
use native.Mathlib.Nat.{pow-succ'}
use order_book_rs.Prelude.{
  ℕ, zero, suc, ◌+◌, ◌-◌, ◌/◌, ◌^◌, ◌≤◌, ◌<◌, ◌≡◌, refl, ap, ◌∙◌, Bool, true, not, List, [], ◌∷◌,
  ◌++◌, length, take, drop, leb, ltb, arith, length-append,
}
use order_book_rs.Prelude.Words.{u32_max, u64_max}
use order_book_rs.Prelude.Result.{Result, ok, ◌>>=◌, ◌>>◌, guard}
use order_book_rs.Wire.{WireError}
use order_book_rs.Wire.Framing.{
  to_le_bytes, from_le_bytes, encode_frame, decode_frame, IoError, slice, byte_at, len_prefix,
  kind_size,
}

-- A number of four bytes is what they give back.
pub from_le_bytes-to_le_bytes :
    (count n : ℕ) → n < 256 ^ count → from_le_bytes (to_le_bytes count n) ≡ n
from_le_bytes-to_le_bytes zero n h = ground arith
from_le_bytes-to_le_bytes (suc count) n h =
    omega (arith, from_le_bytes-to_le_bytes count (n / 256) (omega (arith, pow-succ' 256 count)))

guard_passes :
    {E A : Type 0} {k r : Result E A} (b : Bool) (e : E) → b ≡ true → k ≡ r → (guard b e >> k) ≡ r
guard_passes {k} b e h q = ap (λ t. guard t e >> k) h ∙ q

bind_passes :
    {E A B : Type 0} {m : Result E A} {r : Result E B} (a : A) (f : A → Result E B)
    → m ≡ ok a
    → f a ≡ r
    → (m >>= f) ≡ r
bind_passes a f h q = ap (λ t. t >>= f) h ∙ q

slice_inside :
    (first last : ℕ) (buf : List ℕ)
    → last ≤ length buf
    → slice first last buf ≡ ok (take (last - first) (drop first buf))
slice_inside first last buf h = ground arith

pub take-append : (xs ys : List ℕ) → take (length xs) (xs ++ ys) ≡ xs
take-append [] ys = refl
take-append (x ∷ xs) ys = ap (λ t. x ∷ t) (take-append xs ys)

-- A buffer that begins with a length and a kind is a frame if it is as long as it says.
module _ (kind n : ℕ) (tail : List ℕ) (fits : suc n ≤ u32_max) (inside : n ≤ length tail) where
  -- What the decoder does after it has read the length.
  abbrev read_body : List ℕ → ℕ → Result WireError (ℕ × List ℕ × ℕ)
  read_body buf body_len = do
    guard (not (ltb body_len kind_size)) (WireError.invalid_payload "frame body shorter than kind")
    guard (leb (len_prefix + body_len) u64_max) WireError.truncated
    guard (not (ltb (length buf) (len_prefix + body_len))) WireError.truncated
    kind ← byte_at len_prefix buf
    payload ← slice (len_prefix + kind_size) (len_prefix + body_len) buf
    ok (kind, payload, len_prefix + body_len)

  read_body-whole :
      (a b c d : ℕ)
      → read_body (a ∷ b ∷ c ∷ d ∷ kind ∷ tail) (suc n) ≡ ok (kind, take n tail, 5 + n)
  read_body-whole a b c d =
      guard_passes (not (ltb (suc n) kind_size))
        (WireError.invalid_payload "frame body shorter than kind") (ground arith)
        (guard_passes (leb (len_prefix + suc n) u64_max) WireError.truncated (ground arith) (
          guard_passes (not (ltb (length (a ∷ b ∷ c ∷ d ∷ kind ∷ tail)) (len_prefix + suc n)))
            WireError.truncated (ground arith)
            (bind_passes (take n tail) (λ t. ok (kind, t, len_prefix + suc n))
              (slice_inside 5 (4 + suc n) (a ∷ b ∷ c ∷ d ∷ kind ∷ tail) (omega arith)
                ∙ ap (λ k. ok (take k tail)) (omega arith))
              (ap (λ k. ok (kind, take n tail, k)) (the-total)))))
    where
      the-total : len_prefix + suc n ≡ 5 + n
      the-total = omega arith

  decode_frame-whole :
      (a b c d : ℕ)
      → from_le_bytes (a ∷ b ∷ c ∷ d ∷ []) ≡ suc n
      → decode_frame (a ∷ b ∷ c ∷ d ∷ kind ∷ tail) ≡ ok (kind, take n tail, 5 + n)
  unfolding decode_frame
  decode_frame-whole a b c d e =
      guard_passes (not (ltb (length (a ∷ b ∷ c ∷ d ∷ kind ∷ tail)) 5)) WireError.truncated
        (ground arith)
        (bind_passes (a ∷ b ∷ c ∷ d ∷ [])
          (λ bytes. read_body (a ∷ b ∷ c ∷ d ∷ kind ∷ tail) (from_le_bytes bytes))
          (slice_inside 0 4 (a ∷ b ∷ c ∷ d ∷ kind ∷ tail) (omega arith))
          (ap (read_body (a ∷ b ∷ c ∷ d ∷ kind ∷ tail)) e ∙ read_body-whole a b c d))

-- A frame that is written is read back, with nothing of what follows it, if kind and payload fit
-- the length prefix.
pub decode_frame-encode_frame :
    (kind : ℕ) (payload out rest : List ℕ)
    → length payload + kind_size ≤ u32_max
    → (frame : List ℕ) × (encode_frame kind payload out ≡ ok (out ++ frame))
      × (decode_frame (frame ++ rest) ≡ ok (kind, payload, length frame))
unfolding encode_frame
decode_frame-encode_frame kind payload out rest h = (
  frame,
  guard_passes (leb (length payload + kind_size) u64_max) IoError.invalid_input (ground arith) (
      guard_passes (leb (length payload + kind_size) u32_max) IoError.invalid_input (ground arith)
        refl),
  decode_frame-whole kind (length payload) (payload ++ rest) (omega arith)
        (omega (arith, length-append payload rest)) _ _ _ _
        (from_le_bytes-to_le_bytes 4 (length payload + kind_size) (omega arith) ∙ one_more)
      ∙ (ap (λ t. ok (kind, t, 5 + length payload)) (take-append payload rest)
          ∙ ap (λ k. ok (kind, payload, k)) measured),
)
  where
    frame : List ℕ
    frame = to_le_bytes 4 (length payload + kind_size) ++ (kind ∷ payload)

    one_more : length payload + kind_size ≡ suc (length payload)
    one_more = omega arith

    measured : 5 + length payload ≡ length frame
    measured = omega arith
