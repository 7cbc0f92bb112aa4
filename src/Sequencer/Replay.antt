-- ===== src/Sequencer/Replay.antt =====
-- src/orderbook/sequencer/replay.rs: the replay of a journal into a fresh book. The calls of the
-- progress callback are a log, newest first.
use order_book_rs.Prelude.{
  ℕ, ◌+◌, Bool, true, false, not, Option, none, some, List, [], ◌∷◌, ◌==◌, ltb, if◌then◌else◌,
}
use order_book_rs.Prelude.Words.{u64_max}
use order_book_rs.Prelude.Result.{Result, ok, err, ◌>>◌}
use order_book_rs.Error.{BookError}
use order_book_rs.PriceLevel.{PriceLevels}
use order_book_rs.Clock.{Clock}
use order_book_rs.Book.{Book}
use order_book_rs.Cancel
use order_book_rs.MassCancel.{
  cancel_all_orders, cancel_orders_by_side, cancel_orders_by_user, cancel_orders_by_price_range,
  evict_expired_orders,
}
use order_book_rs.Submission.Add
use order_book_rs.Modify
use order_book_rs.Operations.{submit_market_order, submit_market_order_by_amount}
use order_book_rs.Sequencer.{
  SequencerCommand, SequencerResult, SequencerEvent, JournalError, JournalEntry, Journal,
}
use order_book_rs.Sequencer.Config.{ReplayBookConfig, with_clock, apply_to}

pub data ReplayError : Type 0 where
  empty_journal snapshot_mismatch : ReplayError
  invalid_sequence sequence_gap : ℕ → ℕ → ReplayError
  sequence_overflow namespace_requires_full_replay : ℕ → ReplayError
  order_book_error : ℕ → BookError → ReplayError
  journal_error : JournalError → ReplayError

-- `checked_add(1)`
unfoldable pub checked_next : ℕ → Option ℕ
checked_next n = if ltb n u64_max then some (n + 1) else none

module _ (P : PriceLevels) where
  -- `matches!(result, Rejected { .. })`
  unfoldable pub is_rejected : SequencerResult P → Bool
  is_rejected (SequencerResult.rejected reason) = true
  is_rejected _ = false

  -- What a command answers, its value dropped.
  abbrev pub verdict :
      {A : Type 0} → Result BookError A × Book P → Result BookError (Unit {0}) × Book P
  verdict (ok a, b) = (ok tt, b)
  verdict (err e, b) = (err e, b)

  -- The operation that a command stands for.
  unfoldable pub apply_command : Book P → SequencerCommand → Result BookError (Unit {0}) × Book P
  unfolding Add.add_order Cancel.cancel_order Modify.update_order submit_market_order
      submit_market_order_by_amount cancel_all_orders cancel_orders_by_side cancel_orders_by_user
      cancel_orders_by_price_range evict_expired_orders
  apply_command b (SequencerCommand.add_order o) = verdict (Add.add_order P b o)
  apply_command b (SequencerCommand.cancel_order id) = (ok tt, (Cancel.cancel_order P b id).1)
  apply_command b (SequencerCommand.update_order update) = verdict (Modify.update_order P b update)
  apply_command b (SequencerCommand.market_order id quantity side) =
      verdict (submit_market_order P b id quantity side)
  apply_command b (SequencerCommand.market_order_by_amount id amount side) =
      verdict (submit_market_order_by_amount P b id amount side)
  apply_command b SequencerCommand.cancel_all = (ok tt, (cancel_all_orders P b).1)
  apply_command b (SequencerCommand.cancel_by_side side) =
      (ok tt, (cancel_orders_by_side P b side).1)
  apply_command b (SequencerCommand.cancel_by_user user_id) =
      (ok tt, (cancel_orders_by_user P b user_id).1)
  apply_command b (SequencerCommand.cancel_by_price_range side min_price max_price) =
      (ok tt, (cancel_orders_by_price_range P b side min_price max_price).1)
  apply_command b (SequencerCommand.evict_expired_orders now) =
      (ok tt, (evict_expired_orders P b now).1)

  -- An error of the book, under the sequence number of its event.
  abbrev pub at_sequence :
      ℕ → Result BookError (Unit {0}) × Book P → Result ReplayError (Unit {0}) × Book P
  at_sequence sequence (ok u, b) = (ok u, b)
  at_sequence sequence (err e, b) = (err (ReplayError.order_book_error sequence e), b)

  unfoldable pub apply_event : Book P → SequencerEvent P → Result ReplayError (Unit {0}) × Book P
  unfolding is_rejected apply_command
  apply_event b event =
      if is_rejected event.result
      then (ok tt, b)
      else at_sequence event.sequence_num (apply_command b event.command)

  -- The state of the replay loop.
  pub record Progress : Type 0 where
    pub book : Book P
    pub last_applied_seq : ℕ
    pub count : ℕ
    pub expected_seq : ℕ
    pub calls : List (ℕ × ℕ)

  -- Past an event that has been applied, or skipped.
  unfoldable pub advance : Progress → SequencerEvent P → Result ReplayError (Unit {0}) × Progress
  unfolding is_rejected checked_next
  advance s event = elim (checked_next s.expected_seq) [
    | none ↦ (err (ReplayError.sequence_overflow s.expected_seq), s)
    | some next ↦
        let moved : Progress = record s { expected_seq = next } in
        if is_rejected event.result then (ok tt, moved) else elim (checked_next s.count) [
          | none ↦ (
            err (ReplayError.sequence_overflow s.count),
            record moved { last_applied_seq = event.sequence_num },
          )
          | some count ↦ (
            ok tt,
            record moved {
              last_applied_seq = event.sequence_num;
              count = count;
              calls = (count, event.sequence_num) ∷ s.calls;
            },
          )
        ]
  ]

  -- The book that an event has left, and the advance if it has not failed.
  abbrev pub settled :
      Progress
      → SequencerEvent P
      → Result ReplayError (Unit {0}) × Book P
      → Result ReplayError (Unit {0}) × Progress
  settled s event (err e, b) = (err e, record s { book = b })
  settled s event (ok u, b) = advance (record s { book = b }) event

  -- The body of the loop.
  unfoldable pub replay_event :
      Progress → SequencerEvent P → Result ReplayError (Unit {0}) × Progress
  unfolding apply_event advance
  replay_event s event =
      if not (event.sequence_num == s.expected_seq)
      then (err (ReplayError.sequence_gap s.expected_seq event.sequence_num), s)
      else settled s event (apply_event s.book event)

  unfoldable pub replay_entries :
      List (Result JournalError (JournalEntry P)) → Progress → Result ReplayError ℕ × Progress
  unfolding replay_event
  replay_entries [] s = (ok s.last_applied_seq, s)
  replay_entries (err e ∷ entries) s = (err (ReplayError.journal_error e), s)
  replay_entries (ok entry ∷ entries) s =
      let (r, s') = replay_event s entry.event in
      elim r [ err e ↦ (err e, s') | ok u ↦ replay_entries entries s' ]

  -- Where the loop starts.
  abbrev pub from_start : Book P → ℕ → Progress
  from_start b from_sequence = record {
    book = b;
    last_applied_seq = 0;
    count = 0;
    expected_seq = from_sequence;
    calls = [];
  }

  unfoldable pub replay_into : Book P → Journal P → ℕ → Result ReplayError ℕ × Progress
  unfolding replay_entries
  replay_into b journal from_sequence = elim (journal.read_from from_sequence) [
    | err e ↦ (err (ReplayError.journal_error e), from_start b from_sequence)
    | ok entries ↦ replay_entries entries (from_start b from_sequence)
  ]

  -- What every entry point asks of the journal first.
  unfoldable pub check_range : Journal P → ℕ → Result ReplayError (Unit {0})
  check_range journal from_sequence = elim journal.last_sequence [
    | none ↦ err ReplayError.empty_journal
    | some last ↦
        if ltb last from_sequence
        then err (ReplayError.invalid_sequence from_sequence last)
        else ok tt
  ]

  unfoldable pub check_namespace_full_replay : ℕ → ReplayBookConfig → Result ReplayError (Unit {0})
  check_namespace_full_replay from_sequence config = elim config.trade_id_namespace [
    | none ↦ ok tt
    | some namespace ↦
        if from_sequence == 0
        then ok tt
        else err (ReplayError.namespace_requires_full_replay from_sequence)
  ]

  -- The book with the last applied sequence number; a failed replay gives no book.
  abbrev pub recovered : Result ReplayError ℕ × Progress → Result ReplayError (Book P × ℕ)
  recovered (ok last, s) = ok (s.book, last)
  recovered (err e, s) = err e

  -- `replay_from_with_clock_and_progress`; `replay_from`, `replay_from_with_progress` and
  -- `replay_from_with_clock` are this under the wall clock or without the callback.
  unfoldable pub replay_from_with_clock :
      Journal P → ℕ → ℕ → Clock → Result ReplayError (Book P × ℕ)
  unfolding check_range replay_into with_clock
  replay_from_with_clock journal from_sequence namespace clock =
      check_range journal from_sequence
      >> recovered (replay_into (with_clock P namespace clock) journal from_sequence)

  -- `replay_from_with_clock_and_config`, and `replay_from_with_config` under the wall clock.
  unfoldable pub replay_from_with_clock_and_config :
      Journal P → ℕ → ℕ → Clock → ReplayBookConfig → Result ReplayError (Book P × ℕ)
  unfolding check_range check_namespace_full_replay replay_into with_clock apply_to
  replay_from_with_clock_and_config journal from_sequence namespace clock config =
      check_range journal from_sequence
      >> check_namespace_full_replay from_sequence config
      >> recovered
          (replay_into (apply_to P config (with_clock P namespace clock)) journal from_sequence)
