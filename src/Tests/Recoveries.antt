-- ===== src/Tests/Recoveries.antt =====
-- The properties of the replay, at a journal of three events.
use order_book_rs.Prelude.{ℕ, ◌≡◌, ◌↔◌, refl, ap, none, some, List, [], ◌∷◌, ◌++◌, map, arith}
use order_book_rs.Prelude.Result.{ok, err}
use order_book_rs.Types.{Side, Order}
use order_book_rs.Error.{StpMode}
use order_book_rs.Clock.{Clock}
use order_book_rs.Book.{Book}
use order_book_rs.Layout.{IsLaidOut}
use order_book_rs.Risk.{new}
use order_book_rs.Stp.{is_enabled}
use order_book_rs.Types.{opposite}
use order_book_rs.Orders.{checked_total_quantity}
use order_book_rs.Book.{get_cached_best_ask, emit_level_change, invalidate}
use order_book_rs.Matching.Budget.{
  limit_price, level_qty_cap, from_mode, is_done, consume, initial_match_quantity,
}
use order_book_rs.Matching.Level.{execute}
use order_book_rs.Matching.Walk.{round, beyond_limit}
use order_book_rs.Submission.Shape.{◌then_in◌}
use order_book_rs.Submission.Add.{add_order, add_order_inner}
use order_book_rs.Sequencer.{SequencerCommand, SequencerResult, SequencerEvent, entry_of, in_memory}
use order_book_rs.Sequencer.Config.{ReplayBookConfig, with_clock, apply_to}
use order_book_rs.Sequencer.Replay.{
  ReplayError, is_rejected, apply_command, replay_entries, from_start,
  replay_from_with_clock_and_config,
}
use order_book_rs.Sequencer.Runs.{Run, last_carried_out}
use order_book_rs.Sequencer.Recovery.{replay-gap, replay_from-recovers}
use order_book_rs.Sequencer.Recovery.Soundness.{replay-refines}
use order_book_rs.Sequencer.Recovery.Invariant.{apply_command-IsLaidOut}
use order_book_rs.Tests.Fifo.{fifo, fifo-laws}
use order_book_rs.Tests.Market.{resting}

abbrev clock : Clock
clock = record { reading = λ n. n; reads = 0 }

abbrev config : ReplayBookConfig
config = record {
  fee_schedule = none;
  stp_mode = StpMode.cancel_taker;
  tick_size = none;
  lot_size = none;
  min_order_size = none;
  max_order_size = some 100;
  trade_id_namespace = some 7;
}

abbrev fresh : Book fifo
fresh = apply_to fifo config (with_clock fifo 3 clock)

abbrev event : ℕ → SequencerCommand → SequencerResult fifo → SequencerEvent fifo
event n command result = record {
  sequence_num = n;
  timestamp_ns = 0;
  command = command;
  result = result;
}

abbrev bid : Order
bid = resting 60 9 Side.buy 100 10

abbrev added : SequencerEvent fifo
added = event 0 (SequencerCommand.add_order bid) (SequencerResult.order_added 60)

abbrev refused : SequencerEvent fifo
refused =
    event 1 (SequencerCommand.add_order (resting 61 9 Side.buy 100 900))
      (SequencerResult.rejected "order size out of range")

abbrev swept : SequencerEvent fifo
swept = event 2 (SequencerCommand.cancel_order 60) (SequencerResult.order_cancelled 60)

abbrev events : List (SequencerEvent fifo)
events = added ∷ refused ∷ swept ∷ []

abbrev after : Book fifo → SequencerCommand → Book fifo
after b command = (apply_command fifo b command).1

abbrev with_bid : Book fifo
with_bid = after fresh (SequencerCommand.add_order bid)

abbrev without_bid : Book fifo
without_bid = after with_bid (SequencerCommand.cancel_order 60)

accepted : (apply_command fifo fresh (SequencerCommand.add_order bid)).0 ≡ ok tt
unfolding apply_command add_order add_order_inner ◌then_in◌ new is_enabled get_cached_best_ask
    opposite round beyond_limit limit_price level_qty_cap from_mode is_done execute consume
    initial_match_quantity emit_level_change checked_total_quantity invalidate apply_to with_clock
accepted = refl

carried : apply_command fifo fresh (SequencerCommand.add_order bid) ≡ (ok tt, with_bid)
carried = ap (λ r. (r, with_bid)) accepted

run : Run fifo 0 fresh events without_bid
unfolding is_rejected apply_command
run =
    Run.carried_out refl refl carried
      (Run.passed_over refl refl (Run.carried_out refl refl refl Run.finished))

refines_example : Run fifo 0 fresh events without_bid ↔ (
    ((replay_entries fifo (map (entry_of fifo) events) (from_start fifo fresh 0)).0
      ≡ ok (last_carried_out fifo 0 events))
    × ((replay_entries fifo (map (entry_of fifo) events) (from_start fifo fresh 0)).1.book
        ≡ without_bid))
refines_example = replay-refines fifo 0 fresh without_bid events (omega arith)

recovered_example :
    replay_from_with_clock_and_config fifo (in_memory fifo events) 0 3 clock config
    ≡ ok (without_bid, last_carried_out fifo 0 events)
recovered_example =
    replay_from-recovers fifo 3 clock config added (refused ∷ swept ∷ []) without_bid run
      (omega arith)

-- The last event comes under the number 5.
gap_example :
    let (r, s) =
      replay_entries fifo
        (map (entry_of fifo) events
          ++ map
              (entry_of fifo)
              (event 5 SequencerCommand.cancel_all (SequencerResult.order_updated 0) ∷ []))
        (from_start fifo fresh 0) in
    (r ≡ err (ReplayError.sequence_gap 3 5)) × (s.book ≡ without_bid)
gap_example =
    replay-gap fifo 0 fresh without_bid events []
      (event 5 SequencerCommand.cancel_all (SequencerResult.order_updated 0)) run (omega arith)
      (λ e. ground arith)

fresh-IsLaidOut : IsLaidOut fifo fresh
unfolding with_clock apply_to
fresh-IsLaidOut = record {
  bid_side = record { keyed = tt; ascending = tt };
  ask_side = record { keyed = tt; ascending = tt };
}

commanded_example : IsLaidOut fifo with_bid
commanded_example =
    apply_command-IsLaidOut fifo fifo-laws fresh (SequencerCommand.add_order bid) fresh-IsLaidOut
