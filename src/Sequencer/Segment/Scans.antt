-- ===== src/Sequencer/Segment/Scans.antt =====
-- A reopened segment goes on after its last good entry, and its entries are read back
-- (src/orderbook/sequencer/file_journal.rs).
use order_book_rs.Prelude.{
  ℕ, zero, suc, ◌+◌, ◌≤◌, ◌≡◌, refl, sym, ap, ◌∙◌, none, some, List, [], ◌∷◌, ◌++◌, length,
  append_assoc, length-append, arith,
}
use order_book_rs.PriceLevel.{PriceLevels}
use order_book_rs.Sequencer.{SequencerEvent}
use order_book_rs.Sequencer.Segment.{
  Codec, CodecLaws, good_entry_end, scan_from, scan_write_position,
}
use order_book_rs.Sequencer.Segment.Entries.{IsEntry, length-IsEntry, good_entry_end-IsEntry}

module _ (P : PriceLevels) (K : Codec P) where
  pub scan_from-stops :
      (rounds : ℕ) (segment : List ℕ) (capacity offset : ℕ)
      → good_entry_end P K segment capacity offset ≡ none
      → scan_from P K rounds segment capacity offset ≡ offset
  unfolding scan_from
  scan_from-stops zero segment capacity offset e = refl
  scan_from-stops (suc rounds) segment capacity offset e = rw (scan_from, e) refl

  scan_from-good :
      (rounds : ℕ) (segment : List ℕ) (capacity offset next : ℕ)
      → good_entry_end P K segment capacity offset ≡ some next
      → scan_from P K (suc rounds) segment capacity offset
        ≡ scan_from P K rounds segment capacity next
  unfolding scan_from
  scan_from-good rounds segment capacity offset next e = rw (scan_from, e) refl

module _ (P : PriceLevels) (K : Codec P) (W : CodecLaws P K) where
  -- The bytes of entries, one after another.
  pub data Written : List (SequencerEvent P) → List ℕ → Type 0 where
    nothing : Written [] []
    one_more :
        {event : SequencerEvent P} {events : List (SequencerEvent P)}
        {payload entry bytes all : List ℕ}
        → IsEntry P K W event payload entry
        → all ≡ entry ++ bytes
        → Written events bytes
        → Written (event ∷ events) all

  -- The same bytes, with the first entry among those before.
  pub regrouped :
      (before entry bytes all tail : List ℕ)
      → all ≡ entry ++ bytes
      → before ++ (all ++ tail) ≡ before ++ (entry ++ (bytes ++ tail))
  regrouped before entry bytes all tail l =
      ap (λ t. before ++ (t ++ tail)) l ∙ simp append_assoc refl

  -- How long the bytes are, by their first entry, which is not empty.
  pub length-one_more :
      (event : SequencerEvent P) (payload entry bytes all : List ℕ)
      → IsEntry P K W event payload entry
      → all ≡ entry ++ bytes
      → (length all ≡ length entry + length bytes) × (1 ≤ length entry)
  length-one_more event payload entry bytes all w l = (
    ap length l ∙ length-append entry bytes,
    omega (arith, length-IsEntry P K W event payload entry w),
  )

  scan_from-Written :
      {events : List (SequencerEvent P)} {bytes : List ℕ} (rounds : ℕ)
      (segment before tail : List ℕ) (offset : ℕ)
      → Written events bytes
      → segment ≡ before ++ (bytes ++ tail)
      → offset ≡ length before
      → length bytes ≤ rounds
      → good_entry_end P K segment (length segment) (offset + length bytes) ≡ none
      → scan_from P K rounds segment (length segment) offset ≡ offset + length bytes
  scan_from-Written rounds segment before tail offset (Written.nothing) e f room torn =
      let here : offset + 0 ≡ offset = omega arith in
      scan_from-stops P K rounds segment (length segment) offset
        (ap (good_entry_end P K segment (length segment)) (sym here) ∙ torn)
      ∙ sym here
  scan_from-Written zero segment before tail offset
        (Written.one_more {event} {payload = payload} {entry} {bytes} {all} w l more) e f room
        torn =
      let (long, some_byte) = length-one_more event payload entry bytes all w l in
      absurd (omega arith)
  scan_from-Written (suc rounds) segment before tail offset
        (Written.one_more {event} {payload = payload} {entry} {bytes} {all} w l more) e f room
        torn =
      let (long, some_byte) = length-one_more event payload entry bytes all w l in
      let apart = e ∙ regrouped before entry bytes all tail l in
      let good : good_entry_end P K segment (length segment) offset ≡ some (offset + length entry) =
        ap (λ s. good_entry_end P K s (length s) offset) apart
        ∙ ap
            (good_entry_end P K (before ++ (entry ++ (bytes ++ tail)))
              (length (before ++ (entry ++ (bytes ++ tail)))))
            f
        ∙ good_entry_end-IsEntry P K W event payload entry w before (bytes ++ tail)
        ∙ ap (λ n. some (n + length entry)) (sym f) in
      let there : offset + length entry + length bytes ≡ offset + length all = omega arith in
      scan_from-good P K rounds segment (length segment) offset (offset + length entry) good
      ∙ scan_from-Written rounds segment (before ++ entry) tail (offset + length entry) more
          (apart ∙ sym (append_assoc before entry (bytes ++ tail)))
          (omega (arith, length-append before entry)) (omega arith)
          (ap (good_entry_end P K segment (length segment)) there ∙ torn)
      ∙ there

  -- A segment that begins with entries, and has no whole entry with a good checksum after them, is
  -- continued right after them, whatever torn bytes stand there.
  pub scan_write_position-Written :
      (events : List (SequencerEvent P)) (bytes tail : List ℕ)
      → Written events bytes
      → good_entry_end P K (bytes ++ tail) (length (bytes ++ tail)) (length bytes) ≡ none
      → scan_write_position P K (bytes ++ tail) (length (bytes ++ tail)) ≡ length bytes
  unfolding scan_write_position
  scan_write_position-Written events bytes tail w torn =
      let start : 0 + length bytes ≡ length bytes = omega arith in
      scan_from-Written (length (bytes ++ tail)) (bytes ++ tail) [] tail 0 w refl refl
        (omega (arith, length-append bytes tail))
        (ap (good_entry_end P K (bytes ++ tail) (length (bytes ++ tail))) start ∙ torn)
      ∙ start
