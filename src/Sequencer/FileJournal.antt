-- ===== src/Sequencer/FileJournal.antt =====
-- The journal in files (src/orderbook/sequencer/file_journal.rs): its directory is a map from the start
-- sequence number of a segment, which its file name spells, to the bytes of the file, in ascending
-- order. The mapping of the active segment is its file. Calls of the file system succeed, and no lock is
-- poisoned.
pub mod Reopening
pub mod Reading
pub mod Appending
use order_book_rs.Prelude.{
  ℕ, zero, suc, ◌+◌, ◌-◌, ◌≡◌, refl, Bool, true, false, ◌&&◌, ◌||◌, Option, none, some, List, [],
  ◌∷◌, ◌++◌, ◌==◌, leb, ltb, not, if◌then◌else◌, length, take, drop, keep,
}
use order_book_rs.Prelude.Words.{u64_max}
use order_book_rs.Prelude.Maps.{Map, lookup, upsert}
use order_book_rs.Prelude.Result.{Result, ok, err, ◌>>◌}
use order_book_rs.PriceLevel.{PriceLevels}
use order_book_rs.Queries.{last_key}
use order_book_rs.Sequencer.{SequencerEvent, JournalError, JournalEntry, Journal}
use order_book_rs.Sequencer.Segment.{
  Codec, encode_entry, scan_write_position, scan_last_sequence, decode_next, number_at, verify_from,
  entry_header_size,
}

-- A file of so many bytes, as it is made.
abbrev pub zeros : ℕ → List ℕ
zeros zero = []
zeros (suc n) = 0 ∷ zeros n

-- `SegmentWriter`: the mapping of the active segment.
pub record SegmentWriter : Type 0 where
  pub mmap : List ℕ
  pub write_pos : ℕ
  pub capacity : ℕ

-- `SegmentWriter::create`
unfoldable pub create : ℕ → SegmentWriter
create capacity = record { mmap = zeros capacity; write_pos = 0; capacity = capacity }

-- `remaining`
abbrev pub remaining : SegmentWriter → ℕ
remaining w = w.capacity - w.write_pos

unfoldable pub write_entry : SegmentWriter → List ℕ → Result JournalError SegmentWriter
write_entry w entry =
    let end = w.write_pos + length entry in
    if ltb u64_max end || ltb w.capacity end
    then err (JournalError.entry_too_large (length entry) w.capacity)
    else ok
        (record w { mmap = take w.write_pos w.mmap ++ (entry ++ drop end w.mmap); write_pos = end })

-- `FileJournal`, with its directory.
pub record FileJournal : Type 0 where
  pub segments : Map (List ℕ)
  pub writer : SegmentWriter
  pub segment_size : ℕ
  pub segment_start_seq : ℕ
  pub last_seq : Option ℕ

module _ (P : PriceLevels) (K : Codec P) where
  -- `SegmentWriter::open_existing`
  unfoldable pub open_existing : List ℕ → SegmentWriter
  unfolding scan_write_position
  open_existing file = record {
    mmap = file;
    write_pos = scan_write_position P K file (length file);
    capacity = length file;
  }

  -- The latest segment, whose start is given, and its last sequence number.
  abbrev opened_at : Map (List ℕ) → ℕ → ℕ → List ℕ → FileJournal
  opened_at segments segment_size latest file =
      let w = open_existing file in
      record {
        segments = segments;
        writer = w;
        segment_size = segment_size;
        segment_start_seq = latest;
        last_seq = scan_last_sequence P K w.mmap w.write_pos;
      }

  -- `open_with_segment_size`
  unfoldable pub open_with_segment_size : Map (List ℕ) → ℕ → FileJournal
  unfolding create open_existing scan_last_sequence
  open_with_segment_size segments segment_size = elim (last_key segments) [
    | none ↦ record {
      segments = upsert 0 (zeros segment_size) segments;
      writer = create segment_size;
      segment_size = segment_size;
      segment_start_seq = 0;
      last_seq = none;
    }
    | some latest ↦
        opened_at segments segment_size latest
          (elim (lookup latest segments) [ none ↦ [] | some file ↦ file ])
  ]

  -- The active segment gives way to a new one. A file of the same name is cut to nothing first.
  unfoldable pub rotate_segment : FileJournal → ℕ → FileJournal
  unfolding create
  rotate_segment j start_seq = record j {
    segments = upsert start_seq (zeros j.segment_size) j.segments;
    writer = create j.segment_size;
    segment_start_seq = start_seq;
  }

  -- The entry in the active segment, if there is room for it now.
  unfoldable pub write_to : FileJournal → ℕ → List ℕ → Result JournalError (Unit {0}) × FileJournal
  unfolding write_entry
  write_to j sequence entry =
      if ltb (remaining j.writer) (length entry)
      then (err (JournalError.entry_too_large (length entry) j.segment_size), j)
      else elim (write_entry j.writer entry) [
        | err e ↦ (err e, j)
        | ok w ↦ (
          ok tt,
          record j {
            segments = upsert j.segment_start_seq w.mmap j.segments;
            writer = w;
            last_seq = some sequence;
          },
        )
      ]

  -- `append`
  unfoldable pub append :
      FileJournal → SequencerEvent P → Result JournalError (Unit {0}) × FileJournal
  unfolding encode_entry rotate_segment write_to
  append j event = elim (encode_entry P K event) [
    | err e ↦ (err e, j)
    | ok entry ↦
        write_to
          (if ltb (remaining j.writer) (length entry)
            then rotate_segment j event.sequence_num
            else j)
          event.sequence_num entry
  ]

  -- An entry before the start is passed over; an error is not.
  abbrev pub keep_from :
      ℕ
      → Result JournalError (JournalEntry P)
      → List (Result JournalError (JournalEntry P))
      → List (Result JournalError (JournalEntry P))
  keep_from start (err e) rest = err e ∷ rest
  keep_from start (ok entry) rest =
      if ltb entry.event.sequence_num start then rest else ok entry ∷ rest

  -- What the iterator gives of one segment, from an offset.
  unfoldable pub read_segment : ℕ → ℕ → List ℕ → ℕ → List (Result JournalError (JournalEntry P))
  unfolding decode_next
  read_segment zero start segment offset = []
  read_segment (suc rounds) start segment offset = elim (decode_next P K segment offset) [
    | none ↦ []
    | some (found, next) ↦ keep_from start found (read_segment rounds start segment next)
  ]

  -- From the last segment that starts at the sequence number or before it, or else from the first.
  unfoldable pub segments_from : ℕ → Map (List ℕ) → Map (List ℕ)
  segments_from sequence [] = []
  segments_from sequence (s ∷ []) = s ∷ []
  segments_from sequence (s ∷ (start, file) ∷ m) =
      let rest = segments_from sequence ((start, file) ∷ m) in
      if leb start sequence then rest else s ∷ (start, file) ∷ m

  unfoldable pub read_segments : ℕ → Map (List ℕ) → List (Result JournalError (JournalEntry P))
  unfolding read_segment
  read_segments sequence [] = []
  read_segments sequence ((start, file) ∷ m) =
      read_segment (length file) sequence file 0 ++ read_segments sequence m

  -- The journal in files as a journal.
  unfoldable pub as_journal : FileJournal → Journal P
  unfolding segments_from read_segments
  as_journal j = record {
    read_from = λ sequence. ok (read_segments sequence (segments_from sequence j.segments));
    last_sequence = j.last_seq;
  }

  -- Every segment before a sequence number but the active one, and how many they are.
  unfoldable pub archive_segments_before : ℕ → FileJournal → ℕ × FileJournal
  archive_segments_before before j =
      let goes : ℕ × List ℕ → Bool = λ s. ltb s.0 before && not (s.0 == j.segment_start_seq) in
      (length (keep goes j.segments), record j { segments = keep (λ s. not (goes s)) j.segments })

  unfoldable pub verify_segments : Map (List ℕ) → Result JournalError (Unit {0})
  unfolding verify_from
  verify_segments [] = ok tt
  verify_segments ((start, file) ∷ m) = verify_from P K (length file) file 0 >> verify_segments m

  unfoldable pub verify_integrity : FileJournal → Result JournalError (Unit {0})
  unfolding verify_segments
  verify_integrity j = verify_segments j.segments
