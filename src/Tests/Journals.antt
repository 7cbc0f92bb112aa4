-- ===== src/Tests/Journals.antt =====
-- The properties of the journal in files, at segments of a few bytes.
use order_book_rs.Prelude.{
  ℕ, ◌+◌, ◌%◌, ◌^◌, ◌<◌, ◌≤◌, ◌≡◌, refl, ap, ◌∙◌, none, some, List, [], ◌∷◌, ◌++◌, length, map,
  take, arith, All,
}
use Prim.Native.String.{String}
use order_book_rs.Prelude.Maps.{keys}
use order_book_rs.Prelude.Words.{u64_max}
use order_book_rs.Prelude.Result.{Result, ok, err}
use order_book_rs.Wire.Framing.{to_le_bytes, from_le_bytes}
use order_book_rs.Sequencer.{SequencerCommand, SequencerResult, SequencerEvent, JournalError}
use order_book_rs.Sequencer.Segment.{
  Codec, CodecLaws, body_of, encode_entry, range, number_at, entry_crc_valid, good_entry_end,
  scan_write_position, decode_next,
}
use order_book_rs.Sequencer.Segment.Entries.{IsEntry, decode_next-encode_entry}
use order_book_rs.Sequencer.Segment.Scans.{Written, scan_write_position-Written}
use order_book_rs.Sequencer.FileJournal.{
  FileJournal, zeros, remaining, create, open_with_segment_size, append, read_segment,
  verify_integrity,
}
use order_book_rs.Sequencer.FileJournal.Reopening.{length-zeros, append-forgets}
use order_book_rs.Sequencer.FileJournal.Reading.{event_of}
use order_book_rs.Sequencer.FileJournal.Appending.{Holds, append-read}
use order_book_rs.Tests.Fifo.{fifo}

-- An event of the sequencer that swept so many orders.
abbrev event : ℕ → ℕ → SequencerCommand → SequencerResult fifo → SequencerEvent fifo
event seq stamp command result = record {
  sequence_num = seq;
  timestamp_ns = stamp;
  command = command;
  result = result;
}

abbrev swept : ℕ → ℕ → SequencerEvent fifo
swept seq k = event seq 0 SequencerCommand.cancel_all (SequencerResult.order_cancelled k)

-- It writes such events only, an order cancelled as a byte.
abbrev write : ℕ → ℕ → SequencerCommand → SequencerResult fifo → Result String (List ℕ)
write seq stamp SequencerCommand.cancel_all (SequencerResult.order_cancelled k) =
    ok (seq ∷ stamp ∷ zeros k)
write seq stamp _ _ = err "no such event"

abbrev read : List ℕ → Result String (SequencerEvent fifo)
read (seq ∷ stamp ∷ bytes) =
    ok
      (event seq stamp SequencerCommand.cancel_all (SequencerResult.order_cancelled (length bytes)))
read _ = err "no such event"

abbrev codec : Codec fifo
codec = record {
  crc32 = λ bytes. from_le_bytes bytes % 2 ^ 32;
  to_vec = λ e. write e.sequence_num e.timestamp_ns e.command e.result;
  from_slice = read;
}

read-write :
    (seq stamp : ℕ) (command : SequencerCommand) (result : SequencerResult fifo) (payload : List ℕ)
    → write seq stamp command result ≡ ok payload
    → read payload ≡ ok (event seq stamp command result)
read-write seq stamp SequencerCommand.cancel_all (SequencerResult.order_cancelled k) payload e =
    let same : payload ≡ seq ∷ stamp ∷ zeros k = cc in
    ap read same
    ∙ ap (λ n. ok (event seq stamp SequencerCommand.cancel_all (SequencerResult.order_cancelled n)))
        (length-zeros k)
read-write seq stamp _ _ payload e = cc

codec-laws : CodecLaws fifo codec
codec-laws = record {
  crc-fits = λ bytes. omega arith;
  from_slice-to_vec =
      λ e payload h. read-write e.sequence_num e.timestamp_ns e.command e.result payload h;
}

abbrev payload : ℕ → ℕ → List ℕ
payload seq k = seq ∷ 0 ∷ zeros k

abbrev entry : ℕ → ℕ → List ℕ
entry seq k =
    let body = body_of fifo codec (swept seq k) (payload seq k) in
    to_le_bytes 4 (16 + length (payload seq k) + 4) ++ (body ++ to_le_bytes 4 (codec.crc32 body))

first-IsEntry : IsEntry fifo codec codec-laws (swept 0 1) (payload 0 1) (entry 0 1)
first-IsEntry = record { written = refl; fits = omega arith; layout = refl }

-- One entry between others.
entry_example :
    (bytes : List ℕ) × (encode_entry fifo codec (swept 7 1) ≡ ok bytes)
    × (decode_next fifo codec ((4 ∷ 2 ∷ []) ++ (bytes ++ (0 ∷ []))) 2
        ≡ some (
          ok (record {
            event = swept 7 1;
            stored_crc = codec.crc32 (body_of fifo codec (swept 7 1) (payload 7 1));
          }),
          2 + length bytes,
        ))
entry_example =
    decode_next-encode_entry fifo codec codec-laws (swept 7 1) (payload 7 1) (4 ∷ 2 ∷ []) (0 ∷ [])
      refl (omega arith)

-- An entry, and the beginning of one that a crash has torn.
abbrev torn : List ℕ
torn = take 12 (entry 1 1)

one-Written : Written fifo codec codec-laws (swept 0 1 ∷ []) (entry 0 1)
one-Written = Written.one_more first-IsEntry refl Written.nothing

torn-end :
    good_entry_end fifo codec (entry 0 1 ++ torn) (length (entry 0 1 ++ torn)) (length (entry 0 1))
    ≡ none
unfolding good_entry_end number_at range entry_crc_valid
torn-end = refl

torn_example :
    scan_write_position fifo codec (entry 0 1 ++ torn) (length (entry 0 1 ++ torn))
    ≡ length (entry 0 1)
torn_example =
    scan_write_position-Written fifo codec codec-laws (swept 0 1 ∷ []) (entry 0 1) torn one-Written
      torn-end

abbrev journal : ℕ → FileJournal
journal size = open_with_segment_size fifo codec [] size

journal-Holds : Holds fifo codec codec-laws (journal 100) []
unfolding open_with_segment_size create
journal-Holds = record {
  bytes = [];
  fresh = 100;
  mapped = refl;
  position = refl;
  size = refl;
  written = Written.nothing;
}

room : (journal 100).writer.write_pos + (3 + 24) ≤ (journal 100).writer.capacity
unfolding open_with_segment_size create
room = omega arith

word : (journal 100).writer.capacity ≤ u64_max
unfolding open_with_segment_size create
word = omega arith

appended_example :
    let (r, j') = append fifo codec (journal 100) (swept 0 1) in
    (r ≡ ok tt)
    × (j'.last_seq ≡ some 0)
    × (map
          (event_of fifo codec)
          (read_segment fifo codec (length j'.writer.mmap) 0 j'.writer.mmap 0)
        ≡ map ok (swept 0 1 ∷ []))
appended_example =
    append-read fifo codec codec-laws (journal 100) [] (swept 0 1) (payload 0 1) journal-Holds refl
      (omega arith) room word

encoded : encode_entry fifo codec (swept 5 1) ≡ ok (entry 5 1)
unfolding encode_entry
encoded = refl

small : (journal 10).segment_size < 27
unfolding open_with_segment_size create
small = omega arith

full : remaining (journal 10).writer < 27
unfolding open_with_segment_size create
full = omega arith

sooner : All (λ start. start < 5) (keys (journal 10).segments)
unfolding open_with_segment_size create
sooner = (omega arith, tt)

forgotten_example :
    let (r, j') = append fifo codec (journal 10) (swept 5 1) in
    (r ≡ err (JournalError.entry_too_large 27 (journal 10).segment_size))
    × (j'.last_seq ≡ (journal 10).last_seq)
    × ((open_with_segment_size fifo codec j'.segments 10).last_seq ≡ none)
forgotten_example =
    append-forgets fifo codec (journal 10) (swept 5 1) (entry 5 1) 10 encoded small full sooner

-- An entry, and then a longer one that a crash has torn.
abbrev crashed : List ℕ
crashed = entry 0 1 ++ (to_le_bytes 4 82 ++ (map (λ _. 9) (zeros 60) ++ zeros 50))

-- The journal that is reopened on it writes the next entry over the torn one, the rest of which stays.
abbrev resumed : FileJournal
resumed =
    (append fifo codec (open_with_segment_size fifo codec ((0, crashed) ∷ []) 150) (swept 1 1)).1

leftover :
    verify_integrity fifo codec resumed
    ≡ err (JournalError.invalid_entry_header 54 "truncated entry (extends beyond segment data)")
unfolding append open_with_segment_size verify_integrity encode_entry
leftover = refl
