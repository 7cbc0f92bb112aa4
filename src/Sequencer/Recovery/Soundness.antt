-- ===== src/Sequencer/Recovery/Soundness.antt =====
-- A replay that succeeds is a run of the book (src/orderbook/sequencer/replay.rs).
use order_book_rs.Prelude.{
  ℕ, ◌+◌, ◌≡◌, refl, sym, ap, ◌∙◌, subst, true, false, not, some, List, [], ◌∷◌, ◌==◌, if_cases,
  option_cases, map, arith, ◌≤◌, ◌↔◌, append-nil, length,
}
use order_book_rs.Prelude.Words.{u64_max}
use order_book_rs.Prelude.Result.{Result, ok, err}
use order_book_rs.Error.{BookError}
use order_book_rs.PriceLevel.{PriceLevels}
use order_book_rs.Book.{Book}
use order_book_rs.Sequencer.{SequencerEvent, entry_of, unchecked}
use order_book_rs.Sequencer.Replay.{
  ReplayError, is_rejected, apply_command, at_sequence, apply_event, checked_next, Progress,
  advance, settled, replay_event, replay_entries, from_start,
}
use order_book_rs.Sequencer.Runs.{
  Run-Gives, Run, past, last_carried_out, carry_on, replay_entries-carry_on, replay_entries-done,
}

checked_next-some : (n m : ℕ) → checked_next n ≡ some m → m ≡ n + 1
unfolding checked_next
checked_next-some n m e = ground arith

module _ (P : PriceLevels) where
  -- What the body of the loop can do: fail, pass over a rejection, or carry a command out.
  module _ (C : Result ReplayError (Unit {0}) × Progress P → Type 0) (s : Progress P)
      (event : SequencerEvent P) (fails : (e : ReplayError) (s' : Progress P) → C (err e, s')) where
    advance_cases :
        (b : Book P)
        → (is_rejected P event.result ≡ true
            → C (ok tt, record s { book = b; expected_seq = s.expected_seq + 1 }))
        → (is_rejected P event.result ≡ false → C (ok tt, past P s event b))
        → C (advance P (record s { book = b }) event)
    unfolding advance
    advance_cases b passes carries =
        let At : ℕ → ℕ → Type 0 = λ count expected. C (
          ok tt,
          record {
            book = b;
            last_applied_seq = event.sequence_num;
            count = count;
            expected_seq = expected;
            calls = (count, event.sequence_num) ∷ s.calls;
          },
        ) in
        option_cases C (checked_next s.expected_seq) _ _ (λ _. fails _ _)
          (λ next e.
            let due = sym (checked_next-some s.expected_seq next e) in
            if_cases C (is_rejected P event.result) _ _
              (λ rejected.
                subst (λ n. C (ok tt, record s { book = b; expected_seq = n })) due
                  (passes rejected))
              (λ kept.
                option_cases C (checked_next s.count) _ _ (λ _. fails _ _)
                  (λ count e'. subst (At count) due (
                    subst (λ m. At m (s.expected_seq + 1))
                      (sym (checked_next-some s.count count e')) (carries kept)))))

    pub replay_event_cases :
        (event.sequence_num ≡ s.expected_seq
          → is_rejected P event.result ≡ true
          → C (ok tt, record s { expected_seq = s.expected_seq + 1 }))
        → ((b : Book P)
            → event.sequence_num ≡ s.expected_seq
            → is_rejected P event.result ≡ false
            → apply_command P s.book event.command ≡ (ok tt, b)
            → C (ok tt, past P s event b))
        → C (replay_event P s event)
    unfolding replay_event apply_event
    replay_event_cases passes carries =
        if_cases C (not (event.sequence_num == s.expected_seq)) _ _ (λ _. fails _ _)
          (λ hit.
            let same : event.sequence_num ≡ s.expected_seq = ground arith in
            if_cases (λ (r : Result ReplayError (Unit {0}) × Book P). C (settled P s event r))
              (is_rejected P event.result) _ _
              (λ rejected. advance_cases s.book (passes same) (λ kept. cc))
              (λ kept. applied same kept (apply_command P s.book event.command) refl))
      where
        applied :
            event.sequence_num ≡ s.expected_seq
            → is_rejected P event.result ≡ false
            → (r : Result BookError (Unit {0}) × Book P) → apply_command P s.book event.command ≡ r
            → C (settled P s event (at_sequence P event.sequence_num r))
        applied same kept (ok u, b) done =
            advance_cases b (λ rejected. cc) (λ _. carries b same kept done)
        applied same kept (err e, b) done = fails _ _

  abbrev IsRunOf :
      Progress P → List (SequencerEvent P) → ℕ → Result ReplayError ℕ × Progress P → Type 0
  IsRunOf s events last r =
      r.0 ≡ ok last
      → Run P s.expected_seq s.book events r.1.book
        × (last ≡ last_carried_out P s.last_applied_seq events)

  -- A replay that succeeds has carried out a run, to the book that it leaves.
  pub replay_entries-Run :
      (events : List (SequencerEvent P)) (s : Progress P) (last : ℕ)
      → (replay_entries P (map (entry_of P) events) s).0 ≡ ok last
      → Run P s.expected_seq s.book events (replay_entries P (map (entry_of P) events) s).1.book
        × (last ≡ last_carried_out P s.last_applied_seq events)
  replay_entries-Run [] s last =
      subst (IsRunOf s [] last) (sym (replay_entries-done P s)) (λ e. (Run.finished, cc))
  replay_entries-Run (event ∷ events) s last =
      let entries = map (entry_of P) events in
      subst (IsRunOf s (event ∷ events) last)
        (sym (replay_entries-carry_on P s (unchecked P event) entries))
        (replay_event_cases (λ r. IsRunOf s (event ∷ events) last (carry_on P entries r)) s event
          (λ x s' e. cc)
          (λ same rejected e.
            let (run, l) =
              replay_entries-Run events (record s { expected_seq = s.expected_seq + 1 }) last e in
            (Run.passed_over same rejected run, l ∙ rw rejected refl))
          (λ b same kept done e.
            let (run, l) = replay_entries-Run events (past P s event b) last e in
            (Run.carried_out same kept done run, l ∙ rw kept refl)))

  -- The replay of events refines the relation: as long as the sequence numbers fit 64 bits, it succeeds,
  -- with the number of the last command and a book, exactly when there is a run of the events to that
  -- book.
  pub replay-refines :
      (n : ℕ) (b b' : Book P) (events : List (SequencerEvent P))
      → n + length events ≤ u64_max
      → Run P n b events b' ↔ (
          ((replay_entries P (map (entry_of P) events) (from_start P b n)).0
            ≡ ok (last_carried_out P 0 events))
          × ((replay_entries P (map (entry_of P) events) (from_start P b n)).1.book ≡ b'))
  replay-refines n b b' events room = (
    λ run.
        let (s', book, num, last, go) =
          Run-Gives P (from_start P b n) run refl refl room (omega arith) in
        let whole : replay_entries P (map (entry_of P) events) (from_start P b n)
            ≡ (ok s'.last_applied_seq, s') =
          ap (λ entries. replay_entries P entries (from_start P b n))
            (sym (append-nil (map (entry_of P) events)))
          ∙ go []
          ∙ replay_entries-done P s' in
        (ap (λ r. r.0) whole ∙ ap ok last, ap (λ r. r.1.book) whole ∙ book),
    λ (answer, book).
        subst (Run P n b events) book
          (replay_entries-Run events (from_start P b n) (last_carried_out P 0 events) answer).0,
  )
