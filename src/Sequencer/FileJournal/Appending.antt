-- ===== src/Sequencer/FileJournal/Appending.antt =====
-- An event that is appended is read back after those before it
-- (src/orderbook/sequencer/file_journal.rs).
use order_book_rs.Prelude.{
  ℕ, zero, suc, ◌+◌, ◌-◌, ◌≤◌, ◌<◌, ◌≡◌, refl, sym, ap, ◌∙◌, false, ◌||◌, Option, none, some, List,
  [], ◌∷◌, ◌++◌, leb, ltb, ◌&&◌, if◌then◌else◌, if_cases, length, take, drop, append_assoc,
  length-append, append-nil, arith, map, ◌⊎◌, inl, inr,
}
use order_book_rs.Prelude.Words.{u32_max, u64_max}
use order_book_rs.Prelude.Maps.{upsert}
use order_book_rs.Prelude.Result.{Result, ok, err}
use order_book_rs.PriceLevel.{PriceLevels}
use order_book_rs.Wire.Framing.Trips.{take-append}
use order_book_rs.Sequencer.{SequencerEvent, JournalError, JournalEntry}
use order_book_rs.Sequencer.Segment.{Codec, CodecLaws, range, number_at, encode_entry, decode_next}
use order_book_rs.Sequencer.Segment.Trips.{number_at-append}
use order_book_rs.Sequencer.Segment.Entries.{IsEntry, length-IsEntry, encode_entry-IsEntry}
use order_book_rs.Sequencer.Segment.Scans.{Written}
use order_book_rs.Sequencer.FileJournal.{
  FileJournal, SegmentWriter, zeros, remaining, write_entry, write_to, append, read_segment,
  rotate_segment,
}
use order_book_rs.Sequencer.FileJournal.Reading.{event_of, read_segment-Written}

drop-zeros : (k n : ℕ) → drop k (zeros n) ≡ zeros (n - k)
drop-zeros zero n = let whole : n ≡ n - 0 = omega arith in ap zeros whole
drop-zeros (suc k) zero = let none_left : 0 ≡ 0 - suc k = omega arith in ap zeros none_left
drop-zeros (suc k) (suc n) =
    let one_less : n - k ≡ suc n - suc k = omega arith in drop-zeros k n ∙ ap zeros one_less

drop-beyond : (k : ℕ) (xs ys : List ℕ) → drop (length xs + k) (xs ++ ys) ≡ drop k ys
drop-beyond k [] ys = let start : 0 + k ≡ k = omega arith in ap (λ n. drop n ys) start
drop-beyond k (x ∷ xs) ys =
    let one_more : suc (length xs) + k ≡ suc (length xs + k) = omega arith in
    ap (λ n. drop n (x ∷ (xs ++ ys))) one_more ∙ drop-beyond k xs ys

number_at-short :
    (segment : List ℕ) (offset : ℕ)
    → length segment < offset + 4
    → number_at offset 4 segment ≡ none
unfolding number_at range
number_at-short segment offset short =
    let outside : (leb offset (offset + 4) && leb (offset + 4) (length segment)) ≡ false =
      ground arith in
    rw (number_at, range, outside) refl

-- After some bytes a fresh tail has no room for a length, or says that it is zero.
number_at-fresh :
    (bytes : List ℕ) (n : ℕ)
    → (number_at (length bytes) 4 (bytes ++ zeros n) ≡ none)
      ⊎ (number_at (length bytes) 4 (bytes ++ zeros n) ≡ some 0)
number_at-fresh bytes (suc (suc (suc (suc n)))) = inr (
    number_at-append (bytes ++ zeros (suc (suc (suc (suc n))))) bytes (0 ∷ 0 ∷ 0 ∷ 0 ∷ []) (zeros n)
      (length bytes) 4 refl refl refl)
number_at-fresh bytes n = inl (
    number_at-short (bytes ++ zeros n) (length bytes)
      (omega (arith, length-append bytes (zeros n))))

module _ (P : PriceLevels) (K : Codec P) (W : CodecLaws P K) where
  decode_next-fresh :
      (bytes : List ℕ) (n : ℕ) → decode_next P K (bytes ++ zeros n) (length bytes) ≡ none
  unfolding decode_next
  decode_next-fresh bytes n =
      if_cases (λ (o : Option (Result JournalError (JournalEntry P) × ℕ)). o ≡ none)
        (ltb (length (bytes ++ zeros n)) (length bytes + 20)) _ _ (λ _. refl)
        (λ _. elim (number_at-fresh bytes n) [
          | inl e ↦ rw (decode_next, e) refl
          | inr e ↦ rw (decode_next, e) refl
        ])

  -- The active segment holds the entries of events, and is fresh after them.
  pub record Holds (j : FileJournal) (events : List (SequencerEvent P)) : Type 0 where
    pub bytes : List ℕ
    pub fresh : ℕ
    pub mapped : j.writer.mmap ≡ bytes ++ zeros fresh
    pub position : j.writer.write_pos ≡ length bytes
    pub size : j.writer.capacity ≡ length bytes + fresh
    pub written : Written P K W events bytes

  Written-append :
      {events : List (SequencerEvent P)} {bytes : List ℕ} (event : SequencerEvent P)
      (payload entry : List ℕ)
      → Written P K W events bytes
      → IsEntry P K W event payload entry
      → Written P K W (events ++ event ∷ []) (bytes ++ entry)
  Written-append event payload entry Written.nothing w =
      Written.one_more w (sym (append-nil entry)) Written.nothing
  Written-append event payload entry (Written.one_more {entry = first} {bytes} {all} w' l more) w =
      Written.one_more w' (ap (λ b. b ++ entry) l ∙ append_assoc first bytes entry)
        (Written-append event payload entry more w)

  -- The journal after an entry that the active segment has room for.
  abbrev grown : FileJournal → SequencerEvent P → List ℕ → FileJournal
  grown j event entry =
      let w : SegmentWriter = record j.writer {
        mmap =
            take j.writer.write_pos j.writer.mmap
            ++ (entry ++ drop (j.writer.write_pos + length entry) j.writer.mmap);
        write_pos = j.writer.write_pos + length entry;
      } in
      record j {
        segments = upsert j.segment_start_seq w.mmap j.segments;
        writer = w;
        last_seq = some event.sequence_num;
      }

  write_to-grown :
      (j : FileJournal) (event : SequencerEvent P) (entry : List ℕ)
      → j.writer.write_pos + length entry ≤ j.writer.capacity
      → j.writer.capacity ≤ u64_max
      → write_to P K j event.sequence_num entry ≡ (ok tt, grown j event entry)
  unfolding write_to write_entry
  write_to-grown j event entry room word =
      let fits : ltb (remaining j.writer) (length entry) ≡ false = ground arith in
      let end = j.writer.write_pos + length entry in
      let inside : (ltb u64_max end || ltb j.writer.capacity end) ≡ false = ground arith in
      rw (write_to, fits, write_entry, inside) refl

  append-grown :
      (j : FileJournal) (event : SequencerEvent P) (entry : List ℕ)
      → encode_entry P K event ≡ ok entry
      → j.writer.write_pos + length entry ≤ j.writer.capacity
      → j.writer.capacity ≤ u64_max
      → append P K j event ≡ (ok tt, grown j event entry)
  unfolding append
  append-grown j event entry e room word =
      let fits : ltb (remaining j.writer) (length entry) ≡ false = ground arith in
      let rotated = rotate_segment P K j event.sequence_num in
      let R : Type 0 = Result JournalError (Unit {0}) × FileJournal in
      let chosen : append P K j event
          ≡ write_to P K (if ltb (remaining j.writer) (length entry) then rotated else j)
              event.sequence_num entry =
        ap
          (λ (r : Result JournalError (List ℕ)). elim r as (λ _. R) [
            | err e ↦ (err e, j)
            | ok entry ↦
                write_to P K (if ltb (remaining j.writer) (length entry) then rotated else j)
                  event.sequence_num entry
          ])
          e in
      chosen
      ∙ ap (λ b. write_to P K (if b then rotated else j) event.sequence_num entry) fits
      ∙ write_to-grown j event entry room word

  grown-Holds :
      (j : FileJournal) (events : List (SequencerEvent P)) (event : SequencerEvent P)
      (payload entry : List ℕ)
      → Holds j events
      → IsEntry P K W event payload entry
      → j.writer.write_pos + length entry ≤ j.writer.capacity
      → Holds (grown j event entry) (events ++ event ∷ [])
  grown-Holds j events event payload entry h w room =
      let ahead : take j.writer.write_pos j.writer.mmap ≡ h.bytes =
        ap (λ n. take n j.writer.mmap) h.position
        ∙ ap (take (length h.bytes)) h.mapped
        ∙ take-append h.bytes (zeros h.fresh) in
      let behind : drop (j.writer.write_pos + length entry) j.writer.mmap
          ≡ zeros (h.fresh - length entry) =
        ap (λ n. drop (n + length entry) j.writer.mmap) h.position
        ∙ ap (drop (length h.bytes + length entry)) h.mapped
        ∙ drop-beyond (length entry) h.bytes (zeros h.fresh)
        ∙ drop-zeros (length entry) h.fresh in
      record {
        bytes = h.bytes ++ entry;
        fresh = h.fresh - length entry;
        mapped =
            ap (λ b. b ++ (entry ++ drop (j.writer.write_pos + length entry) j.writer.mmap)) ahead
            ∙ ap (λ t. h.bytes ++ (entry ++ t)) behind
            ∙ sym (append_assoc h.bytes entry (zeros (h.fresh - length entry)));
        position = omega (arith, h.position, length-append h.bytes entry);
        size = omega (arith, h.position, h.size, length-append h.bytes entry);
        written = Written-append event payload entry h.written w;
      }

  Holds-read :
      (j : FileJournal) (events : List (SequencerEvent P))
      → Holds j events
      → map (event_of P K) (read_segment P K (length j.writer.mmap) 0 j.writer.mmap 0)
        ≡ map ok events
  Holds-read j events h =
      let start : length h.bytes ≡ 0 + length h.bytes = omega arith in
      read_segment-Written P K W (length j.writer.mmap) j.writer.mmap [] (zeros h.fresh) 0 h.written
        h.mapped refl (omega (arith, ap length h.mapped, length-append h.bytes (zeros h.fresh)))
        (ap (λ m. decode_next P K m (0 + length h.bytes)) h.mapped
          ∙ ap (decode_next P K (h.bytes ++ zeros h.fresh)) (sym start)
          ∙ decode_next-fresh h.bytes h.fresh)

  -- An event whose payload fits the length field, appended to a journal whose active segment holds written
  -- events and has room for the entry, is acknowledged, becomes the last of the journal, and is read back
  -- after all events that the segment held before.
  pub append-read :
      (j : FileJournal) (events : List (SequencerEvent P)) (event : SequencerEvent P)
      (payload : List ℕ)
      → Holds j events
      → K.to_vec event ≡ ok payload
      → length payload + 20 ≤ u32_max
      → j.writer.write_pos + (length payload + 24) ≤ j.writer.capacity
      → j.writer.capacity ≤ u64_max
      → let (r, j') = append P K j event in
        (r ≡ ok tt)
        × (j'.last_seq ≡ some event.sequence_num)
        × (map (event_of P K) (read_segment P K (length j'.writer.mmap) 0 j'.writer.mmap 0)
            ≡ map ok (events ++ event ∷ []))
  append-read j events event payload h vec fits room word =
      let (entry, encoded, w) = encode_entry-IsEntry P K W event payload vec fits in
      let within : j.writer.write_pos + length entry ≤ j.writer.capacity =
        omega (arith, length-IsEntry P K W event payload entry w) in
      let done = append-grown j event entry encoded within word in
      (
        ap (λ r. r.0) done,
        ap (λ r. r.1.last_seq) done,
        ap (λ r. map (event_of P K) (read_segment P K (length r.1.writer.mmap) 0 r.1.writer.mmap 0))
              done
            ∙ Holds-read (grown j event entry) (events ++ event ∷ [])
                (grown-Holds j events event payload entry h w within),
      )
