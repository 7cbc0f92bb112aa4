-- ===== src/Sequencer/Segment/Trips.antt =====
-- The parts of an entry, and what the decoder and the scan find in them (src/orderbook/sequencer/file_journal.rs).
use order_book_rs.Prelude.{
  ℕ, zero, suc, ◌+◌, ◌-◌, ◌≤◌, ◌≡◌, refl, sym, ap, ◌∙◌, true, false, ◌&&◌, ◌||◌, not, some, List,
  [], ◌∷◌, ◌++◌, ◌==◌, leb, ltb, length, take, drop, append_assoc, length-append, arith, ==_refl,
}
use order_book_rs.Prelude.Result.{ok}
use order_book_rs.PriceLevel.{PriceLevels}
use order_book_rs.Wire.Framing.{to_le_bytes, from_le_bytes}
use order_book_rs.Wire.Framing.Trips.{take-append}
use order_book_rs.Sequencer.{SequencerEvent}
use order_book_rs.Sequencer.Segment.{
  Codec, range, number_at, entry_crc_valid, good_entry_end, read_entry, decode_next,
}

pub drop-append : (xs ys : List ℕ) → drop (length xs) (xs ++ ys) ≡ ys
drop-append [] ys = refl
drop-append (x ∷ xs) ys = drop-append xs ys

length-to_le_bytes : (count n : ℕ) → length (to_le_bytes count n) ≡ count
length-to_le_bytes zero n = refl
length-to_le_bytes (suc count) n = omega (arith, length-to_le_bytes count)

-- The bytes that stand after some others are what their range gives.
range-append :
    (segment before bytes after : List ℕ) (first last : ℕ)
    → segment ≡ before ++ (bytes ++ after)
    → first ≡ length before
    → last ≡ length before + length bytes
    → range first last segment ≡ some bytes
unfolding range
range-append segment before bytes after first last e f l =
    let long : length segment ≡ length before + (length bytes + length after) =
      ap length e
      ∙ length-append before (bytes ++ after)
      ∙ ap (λ n. length before + n) (length-append bytes after) in
    let ordered : (leb first last && leb last (length segment)) ≡ true = ground arith in
    let cut : take (last - first) (drop first segment) ≡ bytes =
      ap (λ n. take n (drop first segment)) (the_width)
      ∙ ap (λ k. take (length bytes) (drop k segment)) f
      ∙ ap (λ s. take (length bytes) (drop (length before) s)) e
      ∙ ap (take (length bytes)) (drop-append before (bytes ++ after))
      ∙ take-append bytes after in
    rw (range, ordered, cut) refl
  where
    the_width : last - first ≡ length bytes
    the_width = omega arith

pub number_at-append :
    (segment before bytes after : List ℕ) (offset size : ℕ)
    → segment ≡ before ++ (bytes ++ after)
    → offset ≡ length before
    → size ≡ length bytes
    → number_at offset size segment ≡ some (from_le_bytes bytes)
unfolding number_at
number_at-append segment before bytes after offset size e f l =
    rw (number_at, range-append segment before bytes after offset (offset + size) e f (omega arith))
      refl

module _ (P : PriceLevels) (K : Codec P) (event : SequencerEvent P)
    (before size seq stamp payload sum after : List ℕ) (size-length : length size ≡ 4)
    (seq-length : length seq ≡ 8) (stamp-length : length stamp ≡ 8) (sum-length : length sum ≡ 4)
    (sized : from_le_bytes size ≡ 16 + length payload + 4)
    (summed : from_le_bytes sum ≡ K.crc32 (seq ++ (stamp ++ payload)))
    (parsed : K.from_slice payload ≡ ok event) where
  abbrev body : List ℕ
  body = seq ++ (stamp ++ payload)

  abbrev segment : List ℕ
  segment = before ++ ((size ++ (body ++ sum)) ++ after)

  abbrev entry_end : ℕ
  entry_end = length before + 4 + (16 + length payload + 4)

  body-length : length body ≡ 16 + length payload
  body-length = omega (arith, length-append seq (stamp ++ payload), length-append stamp payload)

  size-at : number_at (length before) 4 segment ≡ some (16 + length payload + 4)
  size-at =
      number_at-append segment before size ((body ++ sum) ++ after) (length before) 4
        (simp append_assoc refl) refl (sym size-length)
      ∙ ap some sized

  sum-at : number_at (entry_end - 4) 4 segment ≡ some (K.crc32 body)
  sum-at =
      number_at-append segment (before ++ (size ++ body)) sum after (entry_end - 4) 4
        (simp append_assoc refl)
        (omega (arith, length-append before (size ++ body), length-append size body, body-length))
        (sym sum-length)
      ∙ ap some summed

  body-at : range (length before + 4) (entry_end - 4) segment ≡ some body
  body-at =
      range-append segment (before ++ size) body (sum ++ after) (length before + 4) (entry_end - 4)
        (simp append_assoc refl) (omega (arith, length-append before size))
        (omega (arith, length-append before size, body-length))

  seq-at : number_at (length before + 4) 8 segment ≡ some (from_le_bytes seq)
  seq-at =
      number_at-append segment (before ++ size) seq (stamp ++ (payload ++ (sum ++ after)))
        (length before + 4) 8 (simp append_assoc refl) (omega (arith, length-append before size))
        (sym seq-length)

  payload-at : range (length before + 4 + 16) (entry_end - 4) segment ≡ some payload
  payload-at =
      let ahead : length (before ++ (size ++ (seq ++ stamp))) ≡ length before + 20 = omega (
        arith,
        length-append before (size ++ (seq ++ stamp)),
        length-append size (seq ++ stamp),
        length-append seq stamp,
      ) in
      range-append segment (before ++ (size ++ (seq ++ stamp))) payload (sum ++ after)
        (length before + 4 + 16) (entry_end - 4) (simp append_assoc refl) (omega arith)
        (omega arith)

  segment-long : entry_end ≤ length segment
  segment-long = omega (
    arith,
    length-append before ((size ++ (body ++ sum)) ++ after),
    length-append (size ++ (body ++ sum)) after,
    length-append size (body ++ sum),
    length-append body sum,
    body-length,
  )

  read_entry-whole :
      read_entry P K segment (length before) entry_end (K.crc32 body)
      ≡ some (ok (record { event = event; stored_crc = K.crc32 body }))
  unfolding read_entry
  read_entry-whole =
      let same : not (K.crc32 body == K.crc32 body) ≡ false = ap not (==_refl (K.crc32 body)) in
      rw (read_entry, body-at, seq-at, same, payload-at, parsed) refl

  pub decode_next-whole :
      decode_next P K segment (length before)
      ≡ some (ok (record { event = event; stored_crc = K.crc32 body }), entry_end)
  unfolding decode_next
  decode_next-whole =
      let room : ltb (length segment) (length before + 20) ≡ false = ground (arith, segment-long) in
      let whole : (16 + length payload + 4 == 0
            || ltb (length segment) entry_end
            || ltb entry_end 4)
          ≡ false =
        ground (arith, segment-long) in
      rw (decode_next, room, size-at, whole, sum-at, read_entry-whole) refl

  entry_crc_valid-whole : entry_crc_valid P K segment (length before) entry_end ≡ true
  unfolding entry_crc_valid
  entry_crc_valid-whole =
      let sum-range : range (entry_end - 4) entry_end segment ≡ some sum =
        range-append segment (before ++ (size ++ body)) sum after (entry_end - 4) entry_end
          (simp append_assoc refl)
          (omega (arith, length-append before (size ++ body), length-append size body, body-length))
          (omega
            (arith, length-append before (size ++ body), length-append size body, body-length)) in
      let room : ltb entry_end 4 ≡ false = ground arith in
      let inside : (ltb (entry_end - 4) (length before + 4) || ltb (length segment) entry_end)
          ≡ false =
        ground (arith, segment-long) in
      let same : (K.crc32 body == from_le_bytes sum) ≡ true =
        ap (λ n. K.crc32 body == n) summed ∙ ==_refl (K.crc32 body) in
      rw (entry_crc_valid, room, inside, sum-range, body-at, same) refl

  pub good_entry_end-whole :
      good_entry_end P K segment (length segment) (length before) ≡ some entry_end
  unfolding good_entry_end
  good_entry_end-whole =
      let room : ltb (length segment) (length before + 4) ≡ false = ground (arith, segment-long) in
      let some_length : (16 + length payload + 4 == 0) ≡ false = ground arith in
      let inside : (leb entry_end (length segment) && leb entry_end (length segment)) ≡ true =
        ground (arith, segment-long) in
      rw (good_entry_end, room, size-at, some_length, inside, entry_crc_valid-whole) refl
