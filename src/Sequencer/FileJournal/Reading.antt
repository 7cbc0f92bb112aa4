-- ===== src/Sequencer/FileJournal/Reading.antt =====
-- What a journal in files reads back of a segment (src/orderbook/sequencer/file_journal.rs).
use order_book_rs.Prelude.{
  ℕ, zero, suc, ◌+◌, ◌≤◌, ◌≡◌, refl, sym, ap, ◌∙◌, false, none, some, List, [], ◌∷◌, ◌++◌, ltb,
  length, append_assoc, length-append, arith, map,
}
use order_book_rs.Prelude.Result.{Result, ok, err}
use order_book_rs.PriceLevel.{PriceLevels}
use order_book_rs.Sequencer.{SequencerEvent, JournalError, JournalEntry}
use order_book_rs.Sequencer.Segment.{Codec, CodecLaws, body_of, decode_next}
use order_book_rs.Sequencer.Segment.Entries.{decode_next-IsEntry}
use order_book_rs.Sequencer.Segment.Scans.{Written, regrouped, length-one_more}
use order_book_rs.Sequencer.FileJournal.{read_segment}

module _ (P : PriceLevels) (K : Codec P) where
  -- The event of an entry, its checksum left out.
  abbrev pub event_of :
      Result JournalError (JournalEntry P) → Result JournalError (SequencerEvent P)
  event_of (ok entry) = ok entry.event
  event_of (err e) = err e

  read_segment-stops :
      (rounds start : ℕ) (segment : List ℕ) (offset : ℕ)
      → decode_next P K segment offset ≡ none
      → read_segment P K rounds start segment offset ≡ []
  unfolding read_segment
  read_segment-stops zero start segment offset e = refl
  read_segment-stops (suc rounds) start segment offset e = rw (read_segment, e) refl

  read_segment-finds :
      (rounds : ℕ) (segment : List ℕ) (offset next : ℕ) (entry : JournalEntry P)
      → decode_next P K segment offset ≡ some (ok entry, next)
      → read_segment P K (suc rounds) 0 segment offset
        ≡ ok entry ∷ read_segment P K rounds 0 segment next
  unfolding read_segment
  read_segment-finds rounds segment offset next entry e =
      let kept : ltb entry.event.sequence_num 0 ≡ false = ground arith in
      rw (read_segment, e, kept) refl

module _ (P : PriceLevels) (K : Codec P) (W : CodecLaws P K) where
  -- A segment that holds the entries of events, and after them nothing that decodes, is read back to these
  -- events, in order.
  pub read_segment-Written :
      {events : List (SequencerEvent P)} {bytes : List ℕ} (rounds : ℕ)
      (segment before tail : List ℕ) (offset : ℕ)
      → Written P K W events bytes
      → segment ≡ before ++ (bytes ++ tail)
      → offset ≡ length before
      → length bytes ≤ rounds
      → decode_next P K segment (offset + length bytes) ≡ none
      → map (event_of P K) (read_segment P K rounds 0 segment offset) ≡ map ok events
  read_segment-Written rounds segment before tail offset Written.nothing e f room over =
      let here : offset + 0 ≡ offset = omega arith in
      ap (map (event_of P K)) (
        read_segment-stops P K rounds 0 segment offset
          (ap (decode_next P K segment) (sym here) ∙ over))
  read_segment-Written zero segment before tail offset
        (Written.one_more {event} {payload = payload} {entry} {bytes} {all} w l more) e f room
        over =
      let (long, some_byte) = length-one_more P K W event payload entry bytes all w l in
      absurd (omega arith)
  read_segment-Written (suc rounds) segment before tail offset
        (Written.one_more {event} {payload = payload} {entry} {bytes} {all} w l more) e f room
        over =
      let (long, some_byte) = length-one_more P K W event payload entry bytes all w l in
      let apart = e ∙ regrouped P K W before entry bytes all tail l in
      let found : JournalEntry P = record {
        event = event;
        stored_crc = K.crc32 (body_of P K event payload);
      } in
      let decoded : decode_next P K segment offset ≡ some (ok found, offset + length entry) =
        ap (λ s. decode_next P K s offset) apart
        ∙ ap (decode_next P K (before ++ (entry ++ (bytes ++ tail)))) f
        ∙ decode_next-IsEntry P K W event payload entry w before (bytes ++ tail)
        ∙ ap (λ n. some (ok found, n + length entry)) (sym f) in
      let there : offset + length entry + length bytes ≡ offset + length all = omega arith in
      ap (map (event_of P K))
        (read_segment-finds P K rounds segment offset (offset + length entry) found decoded)
      ∙ ap (λ es. ok event ∷ es)
          (read_segment-Written rounds segment (before ++ entry) tail (offset + length entry) more
            (apart ∙ sym (append_assoc before entry (bytes ++ tail)))
            (omega (arith, length-append before entry)) (omega arith)
            (ap (decode_next P K segment) there ∙ over))
