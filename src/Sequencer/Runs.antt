-- ===== src/Sequencer/Runs.antt =====
-- The run of a book that a journal records, and that a replay of the journal is that run
-- (src/orderbook/sequencer/replay.rs).
use order_book_rs.Prelude.{
  ℕ, ◌+◌, ◌<◌, ◌≤◌, ◌≡◌, refl, sym, ap, ◌∙◌, subst, true, false, some, List, [], ◌∷◌, ◌++◌, ◌==◌,
  if◌then◌else◌, length, map, arith,
}
use order_book_rs.Prelude.Words.{u64_max}
use order_book_rs.Prelude.Result.{Result, ok, err}
use order_book_rs.PriceLevel.{PriceLevels}
use order_book_rs.Book.{Book}
use order_book_rs.Sequencer.{SequencerEvent, JournalError, JournalEntry, entry_of, unchecked}
use order_book_rs.Sequencer.Replay.{
  ReplayError, is_rejected, apply_command, apply_event, checked_next, Progress, advance, settled,
  replay_event, replay_entries,
}

module _ (P : PriceLevels) where
  -- A run from a book, numbered from a sequence number on: an event that is not a rejection carries its
  -- command out, and a rejection leaves the book.
  pub data Run : ℕ → Book P → List (SequencerEvent P) → Book P → Type 0 where
    finished : {n : ℕ} {b : Book P} → Run n b [] b
    carried_out :
        {n : ℕ} {b b' b'' : Book P} {event : SequencerEvent P} {events : List (SequencerEvent P)}
        → event.sequence_num ≡ n
        → is_rejected P event.result ≡ false
        → apply_command P b event.command ≡ (ok tt, b')
        → Run (n + 1) b' events b''
        → Run n b (event ∷ events) b''
    passed_over :
        {n : ℕ} {b b'' : Book P} {event : SequencerEvent P} {events : List (SequencerEvent P)}
        → event.sequence_num ≡ n
        → is_rejected P event.result ≡ true
        → Run (n + 1) b events b''
        → Run n b (event ∷ events) b''

  -- The number of the last event that is not a rejection.
  abbrev pub last_carried_out : ℕ → List (SequencerEvent P) → ℕ
  last_carried_out last [] = last
  last_carried_out last (event ∷ events) =
      last_carried_out (if is_rejected P event.result then last else event.sequence_num) events

  checked_next-room : (n : ℕ) → n < u64_max → checked_next n ≡ some (n + 1)
  unfolding checked_next
  checked_next-room n room = ground arith

  -- The event that is expected, and has its place.
  replay_event-expected :
      (s : Progress P) (event : SequencerEvent P)
      → event.sequence_num ≡ s.expected_seq
      → replay_event P s event ≡ settled P s event (apply_event P s.book event)
  unfolding replay_event
  replay_event-expected s event same =
      let hit : (event.sequence_num == s.expected_seq) ≡ true = ground arith in rw hit refl

  apply_event-carried_out :
      (b b' : Book P) (event : SequencerEvent P)
      → is_rejected P event.result ≡ false
      → apply_command P b event.command ≡ (ok tt, b')
      → apply_event P b event ≡ (ok tt, b')
  unfolding apply_event
  apply_event-carried_out b b' event kept done = rw (kept, done) refl

  apply_event-passed_over :
      (b : Book P) (event : SequencerEvent P)
      → is_rejected P event.result ≡ true
      → apply_event P b event ≡ (ok tt, b)
  unfolding apply_event
  apply_event-passed_over b event rejected = rw rejected refl

  -- The progress past an event that was carried out.
  abbrev pub past : Progress P → SequencerEvent P → Book P → Progress P
  past s event b = record {
    book = b;
    last_applied_seq = event.sequence_num;
    count = s.count + 1;
    expected_seq = s.expected_seq + 1;
    calls = (s.count + 1, event.sequence_num) ∷ s.calls;
  }

  advance-carried_out :
      (s : Progress P) (event : SequencerEvent P)
      → is_rejected P event.result ≡ false
      → s.expected_seq < u64_max
      → s.count < u64_max
      → advance P s event ≡ (ok tt, past s event s.book)
  unfolding advance
  advance-carried_out s event kept room room' =
      rw (advance, checked_next-room s.expected_seq room, kept, checked_next-room s.count room')
        refl

  advance-passed_over :
      (s : Progress P) (event : SequencerEvent P)
      → is_rejected P event.result ≡ true
      → s.expected_seq < u64_max
      → advance P s event ≡ (ok tt, record s { expected_seq = s.expected_seq + 1 })
  unfolding advance
  advance-passed_over s event rejected room =
      rw (advance, checked_next-room s.expected_seq room, rejected) refl

  replay_event-carried_out :
      (s : Progress P) (b' : Book P) (event : SequencerEvent P)
      → event.sequence_num ≡ s.expected_seq
      → is_rejected P event.result ≡ false
      → apply_command P s.book event.command ≡ (ok tt, b')
      → s.expected_seq < u64_max
      → s.count < u64_max
      → replay_event P s event ≡ (ok tt, past s event b')
  replay_event-carried_out s b' event same kept done room room' =
      replay_event-expected s event same
      ∙ ap (settled P s event) (apply_event-carried_out s.book b' event kept done)
      ∙ advance-carried_out (record s { book = b' }) event kept room room'

  replay_event-passed_over :
      (s : Progress P) (event : SequencerEvent P)
      → event.sequence_num ≡ s.expected_seq
      → is_rejected P event.result ≡ true
      → s.expected_seq < u64_max
      → replay_event P s event ≡ (ok tt, record s { expected_seq = s.expected_seq + 1 })
  replay_event-passed_over s event same rejected room =
      replay_event-expected s event same
      ∙ ap (settled P s event) (apply_event-passed_over s.book event rejected)
      ∙ advance-passed_over s event rejected room

  pub replay_entries-done : (s : Progress P) → replay_entries P [] s ≡ (ok s.last_applied_seq, s)
  unfolding replay_entries
  replay_entries-done s = refl

  -- What the loop does after its body.
  abbrev pub carry_on :
      List (Result JournalError (JournalEntry P))
      → Result ReplayError (Unit {0}) × Progress P
      → Result ReplayError ℕ × Progress P
  carry_on entries (err e, s) = (err e, s)
  carry_on entries (ok u, s) = replay_entries P entries s

  pub replay_entries-carry_on :
      (s : Progress P) (entry : JournalEntry P)
      (entries : List (Result JournalError (JournalEntry P)))
      → replay_entries P (ok entry ∷ entries) s ≡ carry_on entries (replay_event P s entry.event)
  unfolding replay_entries
  replay_entries-carry_on s entry entries = of_result (replay_event P s entry.event)
    where
      of_result :
          (r : Result ReplayError (Unit {0}) × Progress P)
          → (elim r.0 as (λ _. Result ReplayError ℕ × Progress P) [
            | err e ↦ (err e, r.1)
            | ok u ↦ replay_entries P entries r.1
          ])
            ≡ carry_on entries r
      of_result (err e, s) = refl
      of_result (ok u, s) = refl

  replay_entries-step :
      (s s' : Progress P) (event : SequencerEvent P)
      (entries : List (Result JournalError (JournalEntry P)))
      → replay_event P s event ≡ (ok tt, s')
      → replay_entries P (entry_of P event ∷ entries) s ≡ replay_entries P entries s'
  replay_entries-step s s' event entries e =
      replay_entries-carry_on s (unchecked P event) entries ∙ ap (carry_on entries) e

  -- The loop gets past the events with the book, and goes on with what comes after them.
  abbrev pub Gives : Progress P → List (SequencerEvent P) → Book P → Type 0
  Gives s events b =
      (s' : Progress P) × (s'.book ≡ b)
      × (s'.expected_seq ≡ s.expected_seq + length events)
      × (s'.last_applied_seq ≡ last_carried_out s.last_applied_seq events)
      × ((entries : List (Result JournalError (JournalEntry P)))
          → replay_entries P (map (entry_of P) events ++ entries) s ≡ replay_entries P entries s')

  carried_out-Gives :
      (s : Progress P) (b b' b'' : Book P) (event : SequencerEvent P)
      (events : List (SequencerEvent P))
      → event.sequence_num ≡ s.expected_seq
      → is_rejected P event.result ≡ false
      → apply_command P b event.command ≡ (ok tt, b')
      → s.book ≡ b
      → s.expected_seq < u64_max
      → s.count < u64_max
      → Gives (past s event b') events b''
      → Gives s (event ∷ events) b''
  carried_out-Gives s b b' b'' event events same kept done f room room' (s', book, num, last, go) =
      (
        s',
        book,
        omega arith,
        last ∙ rw kept refl,
        λ entries.
            replay_entries-step s (past s event b') event (map (entry_of P) events ++ entries) (
              replay_event-carried_out s b' event same kept
                (subst (λ b. apply_command P b event.command ≡ (ok tt, b')) (sym f) done) room
                room')
            ∙ go entries,
      )

  passed_over-Gives :
      (s : Progress P) (b'' : Book P) (event : SequencerEvent P) (events : List (SequencerEvent P))
      → event.sequence_num ≡ s.expected_seq
      → is_rejected P event.result ≡ true
      → s.expected_seq < u64_max
      → Gives (record s { expected_seq = s.expected_seq + 1 }) events b''
      → Gives s (event ∷ events) b''
  passed_over-Gives s b'' event events same rejected room (s', book, num, last, go) = (
    s',
    book,
    omega arith,
    last ∙ rw rejected refl,
    λ entries.
        replay_entries-step s (record s { expected_seq = s.expected_seq + 1 }) event
          (map (entry_of P) events ++ entries) (replay_event-passed_over s event same rejected room)
        ∙ go entries,
  )

  pub Run-Gives :
      {n : ℕ} {b₀ b : Book P} {events : List (SequencerEvent P)} (s : Progress P)
      → Run n b₀ events b
      → s.expected_seq ≡ n
      → s.book ≡ b₀
      → s.expected_seq + length events ≤ u64_max
      → s.count + length events ≤ u64_max
      → Gives s events b
  Run-Gives s Run.finished e f room room' = (s, f, omega arith, refl, λ entries. refl)
  Run-Gives s (Run.carried_out {n} {b} {b'} {b''} {event} {events} same kept done run) e f room
        room' =
      carried_out-Gives s b b' b'' event events (same ∙ sym e) kept done f (omega arith)
        (omega arith)
        (Run-Gives (past s event b') run (ap (λ n. n + 1) e) refl (omega arith) (omega arith))
  Run-Gives s (Run.passed_over {n} {b} {b''} {event} {events} same rejected run) e f room room' =
      passed_over-Gives s b'' event events (same ∙ sym e) rejected (omega arith) (
        Run-Gives (record s { expected_seq = s.expected_seq + 1 }) run (ap (λ n. n + 1) e) f
          (omega arith) (omega arith))
