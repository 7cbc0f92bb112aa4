-- ===== src/Sequencer/Recovery/Invariant.antt =====
-- Every book that commands, or a replay of whatever journal, can reach is laid out
-- (src/orderbook/sequencer/replay.rs).
use order_book_rs.Prelude.{
  ℕ, ◌≡◌, refl, sym, subst, false, not, List, [], ◌∷◌, ◌==◌, if_cases, option_cases,
}
use order_book_rs.Prelude.Result.{Result, ok, err, ◌>>◌}
use order_book_rs.Types.{Order}
use order_book_rs.Error.{BookError}
use order_book_rs.PriceLevel.{PriceLevels, PriceLevelLaws}
use order_book_rs.Clock.{Clock}
use order_book_rs.OrderState.{CancelReason}
use order_book_rs.Book.{Book}
use order_book_rs.Cancel.{cancel_order}
use order_book_rs.Submission.Add.{Answer, order_only, add_order, add_order_inner}
use order_book_rs.Submission.Effects.Sides.{add_order_inner-IsLaidOut}
use order_book_rs.Operations.Effects.{
  submit_market_order-IsLaidOut, submit_market_order_by_amount-IsLaidOut,
}
use order_book_rs.Layout.{IsLaidOut, same_sides-IsLaidOut}
use order_book_rs.Layout.Cancels.{
  cancel_order-IsLaidOut, cancel_all-IsLaidOut, by_side-IsLaidOut, by_user-IsLaidOut,
  by_range-IsLaidOut, evict-IsLaidOut,
}
use order_book_rs.Layout.Updates.{update_order-IsLaidOut}
use order_book_rs.Sequencer.{SequencerCommand, SequencerEvent, JournalError, JournalEntry, Journal}
use order_book_rs.Sequencer.Config.{ReplayBookConfig, with_clock, apply_to, set_trade_id_namespace}
use order_book_rs.Sequencer.Replay.{
  ReplayError, is_rejected, verdict, apply_command, at_sequence, apply_event, checked_next,
  Progress, advance, settled, replay_event, replay_entries, from_start, replay_into, recovered,
  check_range, check_namespace_full_replay, replay_from_with_clock_and_config,
}
use order_book_rs.Sequencer.Runs.{Run, carry_on, replay_entries-carry_on}

module _ (P : PriceLevels) (L : PriceLevelLaws P) where
  verdict-IsLaidOut :
      {A : Type 0} (r : Result BookError A × Book P) → IsLaidOut P r.1 → IsLaidOut P (verdict P r).1
  verdict-IsLaidOut (ok a, b) h = h
  verdict-IsLaidOut (err e, b) h = h

  add_order-IsLaidOut : (b : Book P) (o : Order) → IsLaidOut P b → IsLaidOut P (add_order P b o).1
  unfolding add_order
  add_order-IsLaidOut b o h =
      of_answer (add_order_inner P b o false) (add_order_inner-IsLaidOut P L b o false h)
    where
      of_answer :
          (r : Result BookError (Answer P) × Book P)
          → IsLaidOut P r.1
          → IsLaidOut P (order_only P r).1
      of_answer (ok a, b) h = h
      of_answer (err e, b) h = h

  -- Whatever a command does, refused ones included, the sides of the book stay laid out: every level
  -- stands at its own price, and the prices of a side ascend.
  pub apply_command-IsLaidOut :
      (b : Book P) (command : SequencerCommand)
      → IsLaidOut P b
      → IsLaidOut P (apply_command P b command).1
  unfolding apply_command cancel_order
  apply_command-IsLaidOut b (SequencerCommand.add_order o) h =
      verdict-IsLaidOut (add_order P b o) (add_order-IsLaidOut b o h)
  apply_command-IsLaidOut b (SequencerCommand.cancel_order id) h =
      cancel_order-IsLaidOut P L b id CancelReason.user_requested h
  apply_command-IsLaidOut b (SequencerCommand.update_order update) h =
      verdict-IsLaidOut _ (update_order-IsLaidOut P L b update h)
  apply_command-IsLaidOut b (SequencerCommand.market_order id quantity side) h =
      verdict-IsLaidOut _ (submit_market_order-IsLaidOut P L b id quantity side h)
  apply_command-IsLaidOut b (SequencerCommand.market_order_by_amount id amount side) h =
      verdict-IsLaidOut _ (submit_market_order_by_amount-IsLaidOut P L b id amount side h)
  apply_command-IsLaidOut b SequencerCommand.cancel_all h = cancel_all-IsLaidOut P L b h
  apply_command-IsLaidOut b (SequencerCommand.cancel_by_side side) h =
      by_side-IsLaidOut P L b side h
  apply_command-IsLaidOut b (SequencerCommand.cancel_by_user user_id) h =
      by_user-IsLaidOut P L b user_id h
  apply_command-IsLaidOut b (SequencerCommand.cancel_by_price_range side min_price max_price) h =
      by_range-IsLaidOut P L b side min_price max_price h
  apply_command-IsLaidOut b (SequencerCommand.evict_expired_orders now) h =
      evict-IsLaidOut P L b now h

  -- A run keeps the sides laid out.
  Run-IsLaidOut :
      {n : ℕ} {b b' : Book P} {events : List (SequencerEvent P)}
      → Run P n b events b'
      → IsLaidOut P b
      → IsLaidOut P b'
  Run-IsLaidOut Run.finished h = h
  Run-IsLaidOut (Run.carried_out {b = b} {event = event} same kept done run) h = Run-IsLaidOut run (
      subst (λ (r : Result BookError (Unit {0}) × Book P). IsLaidOut P r.1) done
        (apply_command-IsLaidOut b event.command h))
  Run-IsLaidOut (Run.passed_over same rejected run) h = Run-IsLaidOut run h

  apply_event-IsLaidOut :
      (b : Book P) (event : SequencerEvent P)
      → IsLaidOut P b
      → IsLaidOut P (apply_event P b event).1
  unfolding apply_event
  apply_event-IsLaidOut b event h =
      if_cases (λ (r : Result ReplayError (Unit {0}) × Book P). IsLaidOut P r.1)
        (is_rejected P event.result) _ _ (λ _. h)
        (λ _. placed (apply_command P b event.command) (apply_command-IsLaidOut b event.command h))
    where
      placed :
          (r : Result BookError (Unit {0}) × Book P)
          → IsLaidOut P r.1
          → IsLaidOut P (at_sequence P event.sequence_num r).1
      placed (ok u, b) h = h
      placed (err e, b) h = h

  abbrev Laid : {A : Type 0} → Result ReplayError A × Progress P → Type 0
  Laid r = IsLaidOut P r.1.book

  advance-IsLaidOut :
      (s : Progress P) (event : SequencerEvent P) → IsLaidOut P s.book → Laid (advance P s event)
  unfolding advance
  advance-IsLaidOut s event h =
      option_cases Laid (checked_next s.expected_seq) _ _ (λ _. h)
        (λ next _.
          if_cases Laid (is_rejected P event.result) _ _ (λ _. h)
            (λ _. option_cases Laid (checked_next s.count) _ _ (λ _. h) (λ count _. h)))

  replay_event-IsLaidOut :
      (s : Progress P) (event : SequencerEvent P)
      → IsLaidOut P s.book
      → Laid (replay_event P s event)
  unfolding replay_event
  replay_event-IsLaidOut s event h =
      if_cases Laid (not (event.sequence_num == s.expected_seq)) _ _ (λ _. h)
        (λ _. of_event (apply_event P s.book event) (apply_event-IsLaidOut s.book event h))
    where
      of_event :
          (r : Result ReplayError (Unit {0}) × Book P)
          → IsLaidOut P r.1
          → Laid (settled P s event r)
      of_event (err e, b) h = h
      of_event (ok u, b) h = advance-IsLaidOut (record s { book = b }) event h

  replay_entries-IsLaidOut :
      (entries : List (Result JournalError (JournalEntry P))) (s : Progress P)
      → IsLaidOut P s.book
      → Laid (replay_entries P entries s)
  unfolding replay_entries
  replay_entries-IsLaidOut [] s h = h
  replay_entries-IsLaidOut (err e ∷ entries) s h = h
  replay_entries-IsLaidOut (ok entry ∷ entries) s h =
      subst Laid (sym (replay_entries-carry_on P s entry entries)) (
        after (replay_entries-IsLaidOut entries) (replay_event P s entry.event)
          (replay_event-IsLaidOut s entry.event h))
    where
      after :
          ((s : Progress P) → IsLaidOut P s.book → Laid (replay_entries P entries s))
          → (r : Result ReplayError (Unit {0}) × Progress P) → Laid r
          → Laid (carry_on P entries r)
      after rest (err e, s) h = h
      after rest (ok u, s) h = rest s h

  with_clock-IsLaidOut :
      (namespace : ℕ) (clock : Clock) → IsLaidOut P (with_clock P namespace clock)
  unfolding with_clock
  with_clock-IsLaidOut namespace clock = record {
    bid_side = record { keyed = tt; ascending = tt };
    ask_side = record { keyed = tt; ascending = tt };
  }

  apply_to-IsLaidOut :
      (config : ReplayBookConfig) (b : Book P) → IsLaidOut P b → IsLaidOut P (apply_to P config b)
  unfolding apply_to set_trade_id_namespace
  apply_to-IsLaidOut config b h =
      let Same : Book P → Type 0 = λ b'. (b'.bids ≡ b.bids) × (b'.asks ≡ b.asks) in
      let least =
        option_cases Same config.min_order_size _ _ (λ _. (refl, refl)) (λ n _. (refl, refl)) in
      let most = option_cases Same config.max_order_size _ _ (λ _. least) (λ n _. least) in
      let all = option_cases Same config.trade_id_namespace _ _ (λ _. most) (λ n _. most) in
      same_sides-IsLaidOut P b (apply_to P config b) all.0 all.1 h

  replay_into-IsLaidOut :
      (b : Book P) (journal : Journal P) (from_sequence : ℕ)
      → IsLaidOut P b
      → Laid (replay_into P b journal from_sequence)
  unfolding replay_into
  replay_into-IsLaidOut b journal from_sequence h = of_entries (journal.read_from from_sequence)
    where
      of_entries :
          (r : Result JournalError (List (Result JournalError (JournalEntry P))))
          → Laid (elim r as (λ _. Result ReplayError ℕ × Progress P) [
            | err e ↦ (err (ReplayError.journal_error e), from_start P b from_sequence)
            | ok entries ↦ replay_entries P entries (from_start P b from_sequence)
          ])
      of_entries (err e) = h
      of_entries (ok entries) = replay_entries-IsLaidOut entries (from_start P b from_sequence) h

  -- A book that a replay recovers, from whatever journal and under whatever configuration, is laid out.
  pub replay_from-IsLaidOut :
      (journal : Journal P) (from_sequence namespace : ℕ) (clock : Clock)
      (config : ReplayBookConfig) (b : Book P) (last : ℕ)
      → replay_from_with_clock_and_config P journal from_sequence namespace clock config
        ≡ ok (b, last)
      → IsLaidOut P b
  unfolding replay_from_with_clock_and_config
  replay_from-IsLaidOut journal from_sequence namespace clock config b last e =
      peel (check_range P journal from_sequence)
        (check_namespace_full_replay P from_sequence config)
        (replay_into P (apply_to P config (with_clock P namespace clock)) journal from_sequence)
        (replay_into-IsLaidOut _ journal from_sequence
          (apply_to-IsLaidOut config _ (with_clock-IsLaidOut namespace clock)))
        e
    where
      peel :
          (c d : Result ReplayError (Unit {0})) (r : Result ReplayError ℕ × Progress P)
          → Laid r
          → (c >> d >> recovered P r) ≡ ok (b, last)
          → IsLaidOut P b
      peel (err x) d r h e = cc
      peel (ok u) (err x) r h e = cc
      peel (ok u) (ok v) (err x, s) h e = cc
      peel (ok u) (ok v) (ok l, s) h e = let same : s.book ≡ b = cc in subst (IsLaidOut P) same h
