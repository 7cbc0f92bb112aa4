-- ===== src/Sequencer/FileJournal/Reopening.antt =====
-- What a reopened journal knows of its last sequence number (src/orderbook/sequencer/file_journal.rs).
use order_book_rs.Prelude.{
  ℕ, zero, suc, ◌-◌, ◌<◌, ◌≡◌, refl, ap, ◌∙◌, true, false, Option, none, some, List, [], ◌∷◌, ◌==◌,
  leb, ltb, length, All, arith, ◌⊎◌, inl, inr, if_cases,
}
use order_book_rs.Prelude.Maps.{Map, keys, lookup, upsert}
use order_book_rs.Prelude.Result.{ok, err}
use order_book_rs.PriceLevel.{PriceLevels}
use order_book_rs.Queries.{last_key}
use order_book_rs.Sequencer.{SequencerEvent, JournalError}
use order_book_rs.Sequencer.Segment.{
  Codec, encode_entry, range, number_at, good_entry_end, scan_write_position, last_from,
  scan_last_sequence,
}
use order_book_rs.Sequencer.Segment.Scans.{scan_from-stops}
use order_book_rs.Sequencer.FileJournal.{
  FileJournal, zeros, create, open_existing, open_with_segment_size, rotate_segment, write_to,
  append, remaining,
}

pub length-zeros : (n : ℕ) → length (zeros n) ≡ n
length-zeros zero = refl
length-zeros (suc n) = omega (arith, length-zeros n)

module _ {V : Type 0} where
  lookup-upsert : (k : ℕ) (v : V) (m : Map V) → lookup k (upsert k v m) ≡ some v
  lookup-upsert k v [] = ground arith
  lookup-upsert k v ((j, w) ∷ m) = ground (arith, lookup-upsert k v m)

  last_key-cons :
      (k : ℕ) (v : V) (m : Map V) (last : ℕ)
      → last_key m ≡ some last
      → last_key ((k, v) ∷ m) ≡ some last
  last_key-cons k v [] last e = cc
  last_key-cons k v (x ∷ m) last e = e

  last_key-upsert :
      (k : ℕ) (v : V) (m : Map V) → All (λ j. j < k) (keys m) → last_key (upsert k v m) ≡ some k
  last_key-upsert k v [] h = refl
  last_key-upsert k v ((j, w) ∷ m) (h, hs) =
      let other : (k == j) ≡ false = ground arith in
      let later : ltb k j ≡ false = ground arith in
      rw (other, later) (last_key-cons j w (upsert k v m) k (last_key-upsert k v m hs))

module _ (P : PriceLevels) (K : Codec P) where
  -- The length that a fresh file starts with is zero, if the file is long enough to hold one.
  number_at-zeros : (n : ℕ) → (number_at 0 4 (zeros n) ≡ none) ⊎ (number_at 0 4 (zeros n) ≡ some 0)
  unfolding number_at range
  number_at-zeros zero = inl refl
  number_at-zeros (suc zero) = inl refl
  number_at-zeros (suc (suc zero)) = inl refl
  number_at-zeros (suc (suc (suc zero))) = inl refl
  number_at-zeros (suc (suc (suc (suc n)))) =
      let inside : leb 4 (length (zeros (suc (suc (suc (suc n)))))) ≡ true = ground arith in
      inr (rw (number_at, range, inside) refl)

  good_entry_end-zeros : (n capacity : ℕ) → good_entry_end P K (zeros n) capacity 0 ≡ none
  unfolding good_entry_end
  good_entry_end-zeros n capacity =
      if_cases (λ (o : Option ℕ). o ≡ none) (ltb capacity 4) _ _ (λ _. refl)
        (λ _. elim (number_at-zeros n) [ inl e ↦ rw e refl | inr e ↦ rw e refl ])

  last_from-empty : (rounds : ℕ) (segment : List ℕ) → last_from P K rounds segment 0 0 none ≡ none
  unfolding last_from
  last_from-empty zero segment = refl
  last_from-empty (suc rounds) segment = refl

  -- A fresh file has no last sequence number.
  fresh-forgets :
      (n : ℕ)
      → scan_last_sequence P K (zeros n) (scan_write_position P K (zeros n) (length (zeros n)))
        ≡ none
  unfolding scan_write_position scan_last_sequence
  fresh-forgets n =
      ap (λ w. last_from P K (length (zeros n)) (zeros n) w 0 none)
        (scan_from-stops P K (length (zeros n)) (zeros n) (length (zeros n)) 0
          (good_entry_end-zeros n (length (zeros n))))
      ∙ last_from-empty (length (zeros n)) (zeros n)

  open-fresh :
      (segments : Map (List ℕ)) (latest n segment_size : ℕ)
      → last_key segments ≡ some latest
      → lookup latest segments ≡ some (zeros n)
      → (open_with_segment_size P K segments segment_size).last_seq ≡ none
  unfolding open_with_segment_size open_existing
  open-fresh segments latest n segment_size e f =
      rw (open_with_segment_size, e, f) (fresh-forgets n)

  append-oversized :
      (j : FileJournal) (event : SequencerEvent P) (entry : List ℕ)
      → encode_entry P K event ≡ ok entry
      → j.segment_size < length entry
      → remaining j.writer < length entry
      → append P K j event ≡ (
        err (JournalError.entry_too_large (length entry) j.segment_size),
        rotate_segment P K j event.sequence_num,
      )
  unfolding append write_to rotate_segment create
  append-oversized j event entry e large full =
      let rotates : ltb (remaining j.writer) (length entry) ≡ true = ground arith in
      let refused : ltb (j.segment_size - 0) (length entry) ≡ true = ground arith in
      rw (append, e, rotates, write_to, refused) refl

  -- Where all segments start before the event, an entry that neither the active segment nor a fresh one
  -- can hold is refused after the active segment has given way to a fresh one under the number of its
  -- event. The journal goes on with the last number that it knows, but whoever
  -- reopens the directory finds none, as if nothing had ever been written.
  pub append-forgets :
      (j : FileJournal) (event : SequencerEvent P) (entry : List ℕ) (segment_size : ℕ)
      → encode_entry P K event ≡ ok entry
      → j.segment_size < length entry
      → remaining j.writer < length entry
      → All (λ start. start < event.sequence_num) (keys j.segments)
      → let (r, j') = append P K j event in
        (r ≡ err (JournalError.entry_too_large (length entry) j.segment_size))
        × (j'.last_seq ≡ j.last_seq)
        × ((open_with_segment_size P K j'.segments segment_size).last_seq ≡ none)
  unfolding rotate_segment
  append-forgets j event entry segment_size e large full later =
      let refused = append-oversized j event entry e large full in
      let made = zeros j.segment_size in
      (
        ap (λ r. r.0) refused,
        ap (λ r. r.1.last_seq) refused,
        ap (λ r. (open_with_segment_size P K r.1.segments segment_size).last_seq) refused
            ∙ open-fresh (upsert event.sequence_num made j.segments) event.sequence_num
                j.segment_size segment_size
                (last_key-upsert event.sequence_num made j.segments later)
                (lookup-upsert event.sequence_num made j.segments),
      )
