-- ===== src/Sequencer/Segment.antt =====
-- The bytes of one segment (src/orderbook/sequencer/file_journal.rs): the encoding of an entry, its
-- decoding, and the scans that a reopened segment begins with. An entry is its length in four bytes, the
-- sequence number and the timestamp in eight each, the payload, and a checksum of all but the length.
-- A segment is mapped memory, so that sums of offsets in it fit the word. A flush of the mapping
-- succeeds here.
pub mod Trips
pub mod Entries
pub mod Scans
use order_book_rs.Prelude.{
  ℕ, zero, suc, ◌+◌, ◌-◌, ◌%◌, ◌^◌, ◌<◌, ◌≡◌, Bool, true, false, ◌&&◌, ◌||◌, Option, none, some,
  List, [], ◌∷◌, ◌++◌, ◌==◌, leb, ltb, not, if◌then◌else◌, length, take, drop,
}
use Prim.Native.String.{String}
use order_book_rs.Prelude.Words.{u32_max, u64_max}
use order_book_rs.Prelude.Result.{Result, ok, err, guard, ◌>>=◌, ◌>>◌}
use order_book_rs.PriceLevel.{PriceLevels}
use order_book_rs.Wire.Framing.{to_le_bytes, from_le_bytes}
use order_book_rs.Sequencer.{SequencerEvent, JournalError, JournalEntry}

-- `crc32fast::hash`, `serde_json::to_vec` and `serde_json::from_slice`.
pub record Codec (P : PriceLevels) : Type 0 where
  pub crc32 : List ℕ → ℕ
  pub to_vec : SequencerEvent P → Result String (List ℕ)
  pub from_slice : List ℕ → Result String (SequencerEvent P)

-- A checksum has 32 bits, and what is written as JSON is read back.
pub record CodecLaws (P : PriceLevels) (K : Codec P) : Type 0 where
  pub crc-fits : (bytes : List ℕ) → K.crc32 bytes < 2 ^ 32
  pub from_slice-to_vec :
      (event : SequencerEvent P) (payload : List ℕ)
      → K.to_vec event ≡ ok payload
      → K.from_slice payload ≡ ok event

abbrev pub entry_header_size : ℕ
entry_header_size = 4 + 8 + 8

abbrev pub entry_crc_size : ℕ
entry_crc_size = 4

-- `get(first..last)`
unfoldable pub range : ℕ → ℕ → List ℕ → Option (List ℕ)
range first last segment =
    if leb first last && leb last (length segment)
    then some (take (last - first) (drop first segment))
    else none

-- The number that stands in the bytes of a range, if they are there.
unfoldable pub number_at : ℕ → ℕ → List ℕ → Option ℕ
unfolding range
number_at offset size segment = elim (range offset (offset + size) segment) [
  | none ↦ none
  | some bytes ↦ some (from_le_bytes bytes)
]

abbrev pub serialized : {A : Type 0} → Result String A → Result JournalError A
serialized (ok a) = ok a
serialized (err message) = err (JournalError.serialization_error message)

module _ (P : PriceLevels) (K : Codec P) where
  -- What the checksum covers.
  abbrev pub body_of : SequencerEvent P → List ℕ → List ℕ
  body_of event payload =
      to_le_bytes 8 event.sequence_num ++ (to_le_bytes 8 event.timestamp_ns ++ payload)

  -- The length of a payload is cut to 32 bits before it is added.
  unfoldable pub encode_entry : SequencerEvent P → Result JournalError (List ℕ)
  encode_entry event = do
    payload ← serialized (K.to_vec event)
    let entry_length = 16 + length payload % 2 ^ 32 + 4
    guard (leb entry_length u32_max) (JournalError.serialization_error "entry size overflow")
    let body = body_of event payload
    ok (to_le_bytes 4 entry_length ++ (body ++ to_le_bytes 4 (K.crc32 body)))

  unfoldable pub entry_crc_valid : List ℕ → ℕ → ℕ → Bool
  unfolding range
  entry_crc_valid segment offset entry_end =
      if ltb entry_end entry_crc_size
      then false
      else if ltb (entry_end - entry_crc_size) (offset + 4) || ltb (length segment) entry_end
      then false
      else elim (range (entry_end - entry_crc_size) entry_end segment) [
        | none ↦ false
        | some crc_bytes ↦ elim (range (offset + 4) (entry_end - entry_crc_size) segment) [
          | none ↦ false
          | some checksummed ↦ K.crc32 checksummed == from_le_bytes crc_bytes
        ]
      ]

  -- Where the entry at an offset ends, if a whole one with a good checksum stands there.
  unfoldable pub good_entry_end : List ℕ → ℕ → ℕ → Option ℕ
  unfolding number_at entry_crc_valid
  good_entry_end segment capacity offset =
      if ltb capacity (offset + 4) then none else elim (number_at offset 4 segment) [
        | none ↦ none
        | some entry_length ↦
            let entry_end = offset + 4 + entry_length in
            if entry_length == 0
            then none
            else if leb entry_end capacity && leb entry_end (length segment)
            then (if entry_crc_valid segment offset entry_end then some entry_end else none)
            else none
      ]

  -- `scan_write_position`, from an offset. An entry takes a byte at least, so that as many rounds as the
  -- segment has bytes are enough.
  unfoldable pub scan_from : ℕ → List ℕ → ℕ → ℕ → ℕ
  unfolding good_entry_end
  scan_from zero segment capacity offset = offset
  scan_from (suc rounds) segment capacity offset = elim (good_entry_end segment capacity offset) [
    | none ↦ offset
    | some entry_end ↦ scan_from rounds segment capacity entry_end
  ]

  unfoldable pub scan_write_position : List ℕ → ℕ → ℕ
  unfolding scan_from
  scan_write_position segment capacity = scan_from (length segment) segment capacity 0

  -- `scan_last_sequence`, from an offset and with the last number so far.
  unfoldable pub last_from : ℕ → List ℕ → ℕ → ℕ → Option ℕ → Option ℕ
  unfolding number_at
  last_from zero segment write_pos offset last = last
  last_from (suc rounds) segment write_pos offset last =
      if ltb write_pos (offset + entry_header_size)
      then last
      else elim (number_at offset 4 segment) [
        | none ↦ none
        | some entry_length ↦
            elim (entry_length == 0 || ltb write_pos (offset + 4 + entry_length)) [
              | true ↦ last
              | false ↦ elim (number_at (offset + 4) 8 segment) [
                | none ↦ none
                | some seq ↦
                    last_from rounds segment write_pos (offset + 4 + entry_length) (some seq)
              ]
            ]
      ]

  unfoldable pub scan_last_sequence : List ℕ → ℕ → Option ℕ
  unfolding last_from
  scan_last_sequence segment write_pos = last_from (length segment) segment write_pos 0 none

  -- What a whole entry holds, by its checksum and its payload.
  unfoldable pub read_entry : List ℕ → ℕ → ℕ → ℕ → Option (Result JournalError (JournalEntry P))
  unfolding range number_at
  read_entry segment offset entry_end stored_crc =
      elim (range (offset + 4) (entry_end - entry_crc_size) segment) [
        | none ↦ none
        | some checksummed ↦ elim (number_at (offset + 4) 8 segment) [
          | none ↦ none
          | some seq ↦
              if not (stored_crc == K.crc32 checksummed)
              then some (err (JournalError.corrupt_entry seq stored_crc (K.crc32 checksummed)))
              else elim (range (offset + 4 + 16) (entry_end - entry_crc_size) segment) [
                | none ↦ none
                | some json ↦ elim (K.from_slice json) [
                  | err message ↦ some (err (JournalError.deserialization_error seq message))
                  | ok event ↦ some (ok (record { event = event; stored_crc = stored_crc }))
                ]
              ]
        ]
      ]

  -- `decode_next`: the entry at an offset with the offset after it, if there is one.
  unfoldable pub decode_next : List ℕ → ℕ → Option (Result JournalError (JournalEntry P) × ℕ)
  unfolding number_at read_entry
  decode_next segment offset =
      if ltb (length segment) (offset + entry_header_size)
      then none
      else elim (number_at offset 4 segment) [
        | none ↦ none
        | some entry_length ↦
            let entry_end = offset + 4 + entry_length in
            if entry_length == 0 || ltb (length segment) entry_end || ltb entry_end entry_crc_size
            then none
            else elim (number_at (entry_end - entry_crc_size) 4 segment) [
              | none ↦ none
              | some stored_crc ↦ elim (read_entry segment offset entry_end stored_crc) [
                | none ↦ none
                | some found ↦ some (found, entry_end)
              ]
            ]
      ]

  -- The checksum of an entry that lies in the segment.
  unfoldable pub verify_entry : List ℕ → ℕ → ℕ → Result JournalError (Unit {0})
  unfolding range number_at
  verify_entry segment offset entry_end =
      elim (number_at (entry_end - entry_crc_size) entry_crc_size segment) [
        | none ↦ err (JournalError.invalid_entry_header offset "truncated CRC")
        | some stored_crc ↦ elim (range (offset + 4) (entry_end - entry_crc_size) segment) [
          | none ↦ err (JournalError.invalid_entry_header offset "truncated payload")
          | some checksummed ↦
              if stored_crc == K.crc32 checksummed
              then ok tt
              else elim (number_at (offset + 4) 8 segment) [
                | none ↦ err (JournalError.invalid_entry_header offset "truncated sequence_num")
                | some seq ↦ err (JournalError.corrupt_entry seq stored_crc (K.crc32 checksummed))
              ]
        ]
      ]

  -- What `verify_integrity` does with one segment, from an offset.
  unfoldable pub verify_from : ℕ → List ℕ → ℕ → Result JournalError (Unit {0})
  unfolding number_at verify_entry
  verify_from zero segment offset = ok tt
  verify_from (suc rounds) segment offset =
      if ltb (length segment) (offset + entry_header_size)
      then ok tt
      else elim (number_at offset 4 segment) [
        | none ↦ err (JournalError.invalid_entry_header offset "truncated entry_length")
        | some entry_length ↦ elim (entry_length == 0) [
          | true ↦ ok tt
          | false ↦
              let entry_end = offset + 4 + entry_length in
              if ltb (length segment) entry_end
              then err (
                  JournalError.invalid_entry_header offset
                    "truncated entry (extends beyond segment data)")
              else elim (verify_entry segment offset entry_end) [
                | err e ↦ err e
                | ok u ↦ verify_from rounds segment entry_end
              ]
        ]
      ]
