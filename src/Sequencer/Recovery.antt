-- ===== src/Sequencer/Recovery.antt =====
-- What a replay recovers, and what it refuses (src/orderbook/sequencer/replay.rs).
pub mod Invariant
pub mod Soundness
use order_book_rs.Prelude.{
  ℕ, suc, ◌+◌, ◌<◌, ◌≤◌, ◌≡◌, ◌≢◌, refl, sym, ap, ◌∙◌, subst, Bool, true, false, not, Option, none,
  some, List, [], ◌∷◌, ◌++◌, ◌==◌, ltb, leb, if◌then◌else◌, if_cases, if_true, Bool-cases,
  option_cases, keep, length, map, inl, inr, arith, ◌⊎◌, ◌↔◌, append-nil,
}
use order_book_rs.Prelude.Words.{u64_max}
use order_book_rs.Prelude.Result.{Result, ok, err, ◌>>◌}
use order_book_rs.Error.{BookError}
use order_book_rs.PriceLevel.{PriceLevels}
use order_book_rs.Clock.{Clock}
use order_book_rs.Book.{Book}
use order_book_rs.Sequencer.{
  SequencerCommand, SequencerResult, SequencerEvent, JournalError, JournalEntry, Journal, entry_of,
  unchecked, last_sequence_of, entries_from, in_memory, append,
}
use order_book_rs.Sequencer.Config.{ReplayBookConfig, with_clock, apply_to}
use order_book_rs.Sequencer.Replay.{
  ReplayError, is_rejected, apply_command, at_sequence, apply_event, checked_next, Progress,
  advance, settled, replay_event, replay_entries, from_start, replay_into, check_range, recovered,
  check_namespace_full_replay, replay_from_with_clock_and_config,
}
use order_book_rs.Sequencer.Runs.{
  Run, last_carried_out, Gives, Run-Gives, carry_on, replay_entries-carry_on, replay_entries-done,
}

kept_head :
    {P : PriceLevels} (m : ℕ) (event : SequencerEvent P) (events : List (SequencerEvent P))
    → m ≤ event.sequence_num
    → keep (λ (e : SequencerEvent P). leb m e.sequence_num) events ≡ events
    → keep (λ (e : SequencerEvent P). leb m e.sequence_num) (event ∷ events) ≡ event ∷ events
kept_head m event events h e =
    let hit : leb m event.sequence_num ≡ true = ground arith in rw (hit, e) refl

module _ (P : PriceLevels) where
  replay_event-gap :
      (s : Progress P) (event : SequencerEvent P)
      → event.sequence_num ≢ s.expected_seq
      → replay_event P s event
        ≡ (err (ReplayError.sequence_gap s.expected_seq event.sequence_num), s)
  unfolding replay_event
  replay_event-gap s event gap =
      let miss : (event.sequence_num == s.expected_seq) ≡ false = ground arith in rw miss refl

  replay_entries-refused :
      (s s' : Progress P) (event : SequencerEvent P) (e : ReplayError)
      (entries : List (Result JournalError (JournalEntry P)))
      → replay_event P s event ≡ (err e, s')
      → replay_entries P (entry_of P event ∷ entries) s ≡ (err e, s')
  replay_entries-refused s s' event e entries h =
      replay_entries-carry_on P s (unchecked P event) entries ∙ ap (carry_on P entries) h

  -- Past the events of a run, as long as the numbers fit 64 bits, the event that does not follow on is
  -- reported with its number and the one that was due, whatever comes after it, and the book is left
  -- where the run ended.
  pub replay-gap :
      (n : ℕ) (b b' : Book P) (before after : List (SequencerEvent P)) (event : SequencerEvent P)
      → Run P n b before b'
      → n + length before ≤ u64_max
      → event.sequence_num ≢ n + length before
      → let (r, s) =
          replay_entries P
            (map (entry_of P) before ++ map (entry_of P) (event ∷ after))
            (from_start P b n) in
        (r ≡ err (ReplayError.sequence_gap (n + length before) event.sequence_num)) × (s.book ≡ b')
  replay-gap n b b' before after event run room gap =
      let (s', book, num, last, go) =
        Run-Gives P (from_start P b n) run refl refl room (omega arith) in
      let refused =
        go (map (entry_of P) (event ∷ after))
        ∙ replay_entries-refused s' s' event _ (map (entry_of P) after)
            (replay_event-gap s' event (λ e. gap (e ∙ num))) in
      (
        ap (λ r. r.0) refused ∙ ap (λ m. err (ReplayError.sequence_gap m event.sequence_num)) num,
        ap (λ r. r.1.book) refused ∙ book,
      )

  -- The events of a run are numbered from its start on.
  Run-kept :
      {n : ℕ} {b b' : Book P} {events : List (SequencerEvent P)} (m : ℕ)
      → Run P n b events b'
      → m ≤ n
      → keep (λ (e : SequencerEvent P). leb m e.sequence_num) events ≡ events
  Run-kept m Run.finished h = refl
  Run-kept m (Run.carried_out {n} {event = event} {events = events} same kept done run) h =
      kept_head m event events (omega arith) (Run-kept m run (omega arith))
  Run-kept m (Run.passed_over {n} {event = event} {events = events} same rejected run) h =
      kept_head m event events (omega arith) (Run-kept m run (omega arith))

  -- A journal in memory that holds a run replays to the book of the run.
  pub replay_into-Run :
      (n : ℕ) (b b' : Book P) (events : List (SequencerEvent P))
      → Run P n b events b'
      → n + length events ≤ u64_max
      → let (r, s) = replay_into P b (in_memory P events) n in
        (r ≡ ok (last_carried_out P 0 events)) × (s.book ≡ b')
  unfolding replay_into in_memory entries_from
  replay_into-Run n b b' events run room =
      let (s', book, num, last, go) =
        Run-Gives P (from_start P b n) run refl refl room (omega arith) in
      let E : Type 0 = List (Result JournalError (JournalEntry P)) in
      let whole : replay_entries P (entries_from P n events) (from_start P b n)
          ≡ (ok s'.last_applied_seq, s') =
        ap (λ (entries : E). replay_entries P entries (from_start P b n))
          (ap (map (entry_of P)) (Run-kept n run (omega arith))
            ∙ sym (append-nil (map (entry_of P) events)))
        ∙ go []
        ∙ replay_entries-done P s' in
      (ap (λ r. r.0) whole ∙ ap ok last, ap (λ r. r.1.book) whole ∙ book)

  last_sequence_of-some :
      (event : SequencerEvent P) (events : List (SequencerEvent P))
      → (last : ℕ) × (last_sequence_of P (event ∷ events) ≡ some last)
  unfolding last_sequence_of
  last_sequence_of-some event [] = (event.sequence_num, refl)
  last_sequence_of-some event (next ∷ events) = last_sequence_of-some next events

  check_range-origin :
      (event : SequencerEvent P) (events : List (SequencerEvent P))
      → check_range P (in_memory P (event ∷ events)) 0 ≡ ok tt
  unfolding check_range in_memory
  check_range-origin event events =
      let (last, e) = last_sequence_of-some event events in
      let within : ltb last 0 ≡ false = ground arith in rw (e, within) refl

  check_namespace-origin :
      (config : ReplayBookConfig) → check_namespace_full_replay P 0 config ≡ ok tt
  unfolding check_namespace_full_replay
  check_namespace-origin config =
      option_cases (λ (r : Result ReplayError (Unit {0})). r ≡ ok tt) config.trade_id_namespace _ _
        (λ _. refl) (λ namespace _. refl)

  -- A run from a fresh book under a configuration, recorded from sequence number 0 on in a journal in
  -- memory, whose events fit 64 bits in number, is recovered in full: the replay answers with the last
  -- book of the run, and with the number of its last command.
  pub replay_from-recovers :
      (namespace : ℕ) (clock : Clock) (config : ReplayBookConfig) (event : SequencerEvent P)
      (events : List (SequencerEvent P)) (b : Book P)
      → Run P 0 (apply_to P config (with_clock P namespace clock)) (event ∷ events) b
      → length (event ∷ events) ≤ u64_max
      → replay_from_with_clock_and_config P (in_memory P (event ∷ events)) 0 namespace clock config
        ≡ ok (b, last_carried_out P 0 (event ∷ events))
  unfolding replay_from_with_clock_and_config
  replay_from-recovers namespace clock config event events b run room =
      let fresh = apply_to P config (with_clock P namespace clock) in
      let (last, final) = replay_into-Run 0 fresh b (event ∷ events) run (omega arith) in
      rw (check_range-origin event events, check_namespace-origin config)
        (answered (replay_into P fresh (in_memory P (event ∷ events)) 0) last final)
    where
      answered :
          {l : ℕ} (r : Result ReplayError ℕ × Progress P)
          → r.0 ≡ ok l
          → r.1.book ≡ b
          → recovered P r ≡ ok (b, l)
      answered (err e, s) same final = cc
      answered (ok l, s) same final = cc

  -- A command that is carried out, and recorded under the next number, extends the run.
  Run-append :
      {n : ℕ} {b b' b'' : Book P} {events : List (SequencerEvent P)} (event : SequencerEvent P)
      → Run P n b events b'
      → event.sequence_num ≡ n + length events
      → is_rejected P event.result ≡ false
      → apply_command P b' event.command ≡ (ok tt, b'')
      → Run P n b (append P events event) b''
  unfolding append
  Run-append event Run.finished num kept done = Run.carried_out (omega arith) kept done Run.finished
  Run-append event (Run.carried_out same kept' done' run) num kept done =
      Run.carried_out same kept' done' (Run-append event run (omega arith) kept done)
  Run-append event (Run.passed_over same rejected run) num kept done =
      Run.passed_over same rejected (Run-append event run (omega arith) kept done)
