-- ===== src/Sequencer/Segment/Entries.antt =====
-- An entry that is written is read back (src/orderbook/sequencer/file_journal.rs).
use order_book_rs.Prelude.{
  ℕ, ◌+◌, ◌%◌, ◌^◌, ◌≤◌, ◌≡◌, refl, ap, ◌∙◌, true, some, List, ◌++◌, leb, length, length-append,
  arith,
}
use order_book_rs.Prelude.Words.{u32_max}
use order_book_rs.Prelude.Result.{ok}
use order_book_rs.PriceLevel.{PriceLevels}
use order_book_rs.Wire.Framing.{to_le_bytes, from_le_bytes}
use order_book_rs.Wire.Framing.Trips.{from_le_bytes-to_le_bytes}
use order_book_rs.Sequencer.{SequencerEvent}
use order_book_rs.Sequencer.Segment.{
  Codec, CodecLaws, body_of, encode_entry, good_entry_end, decode_next,
}
use order_book_rs.Sequencer.Segment.Trips.{decode_next-whole, good_entry_end-whole}

module _ (P : PriceLevels) (K : Codec P) (W : CodecLaws P K) where
  -- The bytes of the entry of an event whose payload fits the length field.
  pub record IsEntry (event : SequencerEvent P) (payload entry : List ℕ) : Type 0 where
    pub written : K.to_vec event ≡ ok payload
    pub fits : length payload + 20 ≤ u32_max
    pub layout :
        entry
        ≡ to_le_bytes 4 (16 + length payload + 4)
          ++ (body_of P K event payload ++ to_le_bytes 4 (K.crc32 (body_of P K event payload)))

  pub length-IsEntry :
      (event : SequencerEvent P) (payload entry : List ℕ) (w : IsEntry event payload entry)
      → length entry ≡ 4 + (16 + length payload + 4)
  length-IsEntry event payload entry w = omega (
    arith,
    ap length w.layout,
    length-append payload (to_le_bytes 4 (K.crc32 (body_of P K event payload))),
  )

  pub encode_entry-IsEntry :
      (event : SequencerEvent P) (payload : List ℕ)
      → K.to_vec event ≡ ok payload
      → length payload + 20 ≤ u32_max
      → (entry : List ℕ) × (encode_entry P K event ≡ ok entry) × IsEntry event payload entry
  unfolding encode_entry
  encode_entry-IsEntry event payload written fits =
      let whole : length payload % 2 ^ 32 ≡ length payload = ground arith in
      let passes : leb (16 + length payload + 4) u32_max ≡ true = ground arith in
      (
        _,
        rw (encode_entry, written, whole, passes) refl,
        record { written = written; fits = fits; layout = refl },
      )

  module _ (event : SequencerEvent P) (payload entry : List ℕ) (w : IsEntry event payload entry)
      (before after : List ℕ) where
    abbrev crc : ℕ
    crc = K.crc32 (body_of P K event payload)

    abbrev entry_length : ℕ
    entry_length = 16 + length payload + 4

    abbrev laid_out : List ℕ
    laid_out = to_le_bytes 4 entry_length ++ (body_of P K event payload ++ to_le_bytes 4 crc)

    ends : length before + 4 + entry_length ≡ length before + length entry
    ends = omega (arith, length-IsEntry event payload entry w)

    size-read : from_le_bytes (to_le_bytes 4 entry_length) ≡ entry_length
    size-read = from_le_bytes-to_le_bytes 4 entry_length (omega (arith, w.fits))

    sum-read : from_le_bytes (to_le_bytes 4 crc) ≡ crc
    sum-read =
        from_le_bytes-to_le_bytes 4 crc (omega (arith, W.crc-fits (body_of P K event payload)))

    pub decode_next-IsEntry :
        decode_next P K (before ++ (entry ++ after)) (length before)
        ≡ some (ok (record { event = event; stored_crc = crc }), length before + length entry)
    decode_next-IsEntry =
        ap (λ e. decode_next P K (before ++ (e ++ after)) (length before)) w.layout
        ∙ decode_next-whole P K event before (to_le_bytes 4 entry_length)
            (to_le_bytes 8 event.sequence_num) (to_le_bytes 8 event.timestamp_ns) payload
            (to_le_bytes 4 crc) after refl refl refl refl size-read sum-read
            (W.from_slice-to_vec event payload w.written)
        ∙ ap (λ n. some (ok (record { event = event; stored_crc = crc }), n)) ends

    pub good_entry_end-IsEntry :
        good_entry_end P K
          (before ++ (entry ++ after))
          (length (before ++ (entry ++ after)))
          (length before)
        ≡ some (length before + length entry)
    good_entry_end-IsEntry =
        ap
          (λ e.
            good_entry_end P K (before ++ (e ++ after)) (length (before ++ (e ++ after)))
              (length before))
          w.layout
        ∙ good_entry_end-whole P K event before (to_le_bytes 4 entry_length)
            (to_le_bytes 8 event.sequence_num) (to_le_bytes 8 event.timestamp_ns) payload
            (to_le_bytes 4 crc) after refl refl refl refl size-read sum-read
            (W.from_slice-to_vec event payload w.written)
        ∙ ap some ends

  -- An event whose payload fits the length field is written as an entry that is read back wherever it
  -- stands in a segment, with the checksum that it was written with and the offset where it ends.
  pub decode_next-encode_entry :
      (event : SequencerEvent P) (payload before after : List ℕ)
      → K.to_vec event ≡ ok payload
      → length payload + 20 ≤ u32_max
      → (entry : List ℕ) × (encode_entry P K event ≡ ok entry)
        × (decode_next P K (before ++ (entry ++ after)) (length before)
            ≡ some (
              ok (record { event = event; stored_crc = K.crc32 (body_of P K event payload) }),
              length before + length entry,
            ))
  decode_next-encode_entry event payload before after written fits =
      let (entry, encoded, w) = encode_entry-IsEntry event payload written fits in
      (entry, encoded, decode_next-IsEntry event payload entry w before after)
