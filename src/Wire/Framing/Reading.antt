-- ===== src/Wire/Framing/Reading.antt =====
-- What the decoder of frames does with any buffer.
use order_book_rs.Prelude.{
  ℕ, zero, suc, ◌+◌, ◌-◌, ◌≤◌, ◌<◌, ◌≡◌, ◌⊎◌, inl, inr, refl, sym, ap, ◌∙◌, Bool, true, false, not,
  List, [], ◌∷◌, length, take, drop, leb, ltb, if_cases, arith,
}
use order_book_rs.Prelude.Words.{u64_max}
use order_book_rs.Prelude.Result.{Result, ok, err, ◌>>=◌, ◌>>◌, guard}
use order_book_rs.Wire.{WireError}
use order_book_rs.Wire.Framing.{
  from_le_bytes, decode_frame, slice, len_prefix, kind_size, min_frame_size,
}

-- What holds of the refusal and of the rest, each under the test, holds of both in a row.
guard_cases :
    {E A : Type 0} (P : Result E A → Type 0) (b : Bool) (e : E) (k : Result E A)
    → (b ≡ true → P k)
    → (b ≡ false → P (err e))
    → P (guard b e >> k)
guard_cases P true e k h r = h refl
guard_cases P false e k h r = r refl

-- The length that a buffer declares.
abbrev pub declared : List ℕ → ℕ
declared buf = from_le_bytes (take 4 buf)

-- A frame is the declared bytes after the prefix, its kind first, and is whole in the buffer; a
-- buffer is truncated only where it is shorter than it has to be, and invalid only where it leaves
-- no room for the kind.
abbrev pub Reads : List ℕ → Result WireError (ℕ × List ℕ × ℕ) → Type 0
Reads buf (ok (kind, payload, total)) =
    (total ≡ 4 + declared buf)
    × (total ≤ length buf)
    × (kind ∷ payload ≡ take (declared buf) (drop 4 buf))
Reads buf (err WireError.truncated) = (length buf < 5) ⊎ (length buf < 4 + declared buf)
Reads buf (err (WireError.unknown_kind byte)) = 1 ≤ 0
Reads buf (err (WireError.invalid_payload fault)) = declared buf ≡ 0

module _ (a b c d kind : ℕ) (tail : List ℕ) where
  abbrev buffer : List ℕ
  buffer = a ∷ b ∷ c ∷ d ∷ kind ∷ tail

  abbrev read_payload : ℕ → Result WireError (ℕ × List ℕ × ℕ)
  read_payload m = do
    payload ← slice (len_prefix + kind_size) (len_prefix + m) buffer
    ok (kind, payload, len_prefix + m)

  read_payload-Reads :
      (m : ℕ) → declared buffer ≡ m → 1 ≤ m → 4 + m ≤ length buffer → Reads buffer (read_payload m)
  read_payload-Reads zero e g l = ground arith
  read_payload-Reads (suc n) e g l =
      if_cases (λ s. Reads buffer (s >>= λ payload. ok (kind, payload, 4 + suc n)))
        (leb (4 + suc n) (length buffer)) (ok (take (4 + suc n - 5) tail)) (err WireError.truncated)
        (λ _. (
          ap (λ k. 4 + k) (sym e),
          l,
          ap (λ k. kind ∷ take k tail) (omega arith) ∙ ap (λ k. take k (kind ∷ tail)) (sym e),
        ))
        (λ f. ground arith)

  pub decode_frame-long : length buffer ≤ u64_max → Reads buffer (decode_frame buffer)
  unfolding decode_frame
  decode_frame-long h =
      guard_cases (Reads buffer) (not (ltb (length buffer) min_frame_size)) WireError.truncated _
        (λ _.
          if_cases (λ s. Reads buffer (s >>= λ bytes. read_body (from_le_bytes bytes)))
            (leb 4 (length buffer)) (ok (take 4 buffer)) (err WireError.truncated)
            (λ _.
              guard_cases (Reads buffer) (not (ltb (declared buffer) kind_size))
                (WireError.invalid_payload "frame body shorter than kind") _
                (λ p.
                  guard_cases (Reads buffer) (leb (len_prefix + declared buffer) u64_max)
                    WireError.truncated _
                    (λ _.
                      guard_cases (Reads buffer)
                        (not (ltb (length buffer) (len_prefix + declared buffer)))
                        WireError.truncated _
                        (λ l.
                          read_payload-Reads (declared buffer) refl (ground arith) (ground arith))
                        (λ f. inr (ground arith)))
                    (λ f. inr (ground arith)))
                (λ f. ground arith))
            (λ f. ground arith))
        (λ f. ground arith)
    where
      read_body : ℕ → Result WireError (ℕ × List ℕ × ℕ)
      read_body body_len = do
        guard (not (ltb body_len kind_size))
            (WireError.invalid_payload "frame body shorter than kind")
        guard (leb (len_prefix + body_len) u64_max) WireError.truncated
        guard (not (ltb (length buffer) (len_prefix + body_len))) WireError.truncated
        read_payload body_len

-- For a buffer whose length fits 64 bits: a decoded frame is what the buffer declares, whole in it; a
-- buffer is refused as truncated only where it is shorter than a frame or than what it declares, and as
-- invalid only where it declares an empty body.
pub decode_frame-Reads : (buf : List ℕ) → length buf ≤ u64_max → Reads buf (decode_frame buf)
unfolding decode_frame
decode_frame-Reads [] h = inl (omega arith)
decode_frame-Reads (a ∷ []) h = inl (omega arith)
decode_frame-Reads (a ∷ b ∷ []) h = inl (omega arith)
decode_frame-Reads (a ∷ b ∷ c ∷ []) h = inl (omega arith)
decode_frame-Reads (a ∷ b ∷ c ∷ d ∷ []) h = inl (omega arith)
decode_frame-Reads (a ∷ b ∷ c ∷ d ∷ kind ∷ tail) h = decode_frame-long a b c d kind tail h
