-- ===== src/Sequencer.antt =====
-- src/orderbook/sequencer: commands, their results and the events that pair them (types.rs), the
-- journal trait (journal.rs) and the journal in memory (in_memory_journal.rs). A trade result is its
-- engine sequence number with the match, as in a submission's report. The lock of the journal in memory
-- is never poisoned here: no call panics while it holds it.
pub mod Config
pub mod Replay
pub mod Runs
pub mod Recovery
pub mod Segment
pub mod FileJournal
use order_book_rs.Prelude.{
  ℕ, ◌≡◌, refl, Bool, true, false, Option, none, some, List, [], ◌∷◌, ◌++◌, leb, if◌then◌else◌,
  keep, map,
}
use Prim.Native.String.{String}
use order_book_rs.Prelude.Result.{Result, ok, err}
use order_book_rs.Types.{Side, Order}
use order_book_rs.PriceLevel.{PriceLevels}
use order_book_rs.MassCancel.{MassCancelResult}
use order_book_rs.Modify.{OrderUpdate}

-- `SequencerCommand`
pub data SequencerCommand : Type 0 where
  add_order : Order → SequencerCommand
  cancel_order : ℕ → SequencerCommand
  update_order : OrderUpdate → SequencerCommand
  market_order : ℕ → ℕ → Side → SequencerCommand
  market_order_by_amount : ℕ → ℕ → Side → SequencerCommand
  cancel_all : SequencerCommand
  cancel_by_side : Side → SequencerCommand
  cancel_by_user : ℕ → SequencerCommand
  cancel_by_price_range : Side → ℕ → ℕ → SequencerCommand
  evict_expired_orders : ℕ → SequencerCommand

-- `JournalError`, without the paths.
pub data JournalError : Type 0 where
  io : String → JournalError
  corrupt_entry : ℕ → ℕ → ℕ → JournalError
  deserialization_error : ℕ → String → JournalError
  serialization_error : String → JournalError
  entry_too_large : ℕ → ℕ → JournalError
  invalid_directory : JournalError
  mutex_poisoned : JournalError
  sequence_not_found : ℕ → JournalError
  invalid_entry_header : ℕ → String → JournalError
  counter_overflow : String → JournalError

module _ (P : PriceLevels) where
  -- `SequencerResult`
  pub data SequencerResult : Type 0 where
    order_added order_cancelled order_updated : ℕ → SequencerResult
    trade_executed : ℕ → P.MatchResult → SequencerResult
    mass_cancelled : MassCancelResult → SequencerResult
    rejected : String → SequencerResult

  -- `SequencerEvent`
  pub record SequencerEvent : Type 0 where
    pub sequence_num : ℕ
    pub timestamp_ns : ℕ
    pub command : SequencerCommand
    pub result : SequencerResult

  -- `JournalEntry`
  pub record JournalEntry : Type 0 where
    pub event : SequencerEvent
    pub stored_crc : ℕ

  -- What replay reads of a journal: `Journal::read_from` and `Journal::last_sequence`.
  pub record Journal : Type 0 where
    pub read_from : ℕ → Result JournalError (List (Result JournalError JournalEntry))
    pub last_sequence : Option ℕ

  -- `append` of the journal in memory.
  unfoldable pub append : List SequencerEvent → SequencerEvent → List SequencerEvent
  append events event = events ++ event ∷ []

  unfoldable pub last_sequence_of : List SequencerEvent → Option ℕ
  last_sequence_of [] = none
  last_sequence_of (event ∷ []) = some event.sequence_num
  last_sequence_of (event ∷ next ∷ events) = last_sequence_of (next ∷ events)

  -- An event as the journal in memory reads it back, without a checksum.
  abbrev pub unchecked : SequencerEvent → JournalEntry
  unchecked event = record { event = event; stored_crc = 0 }

  abbrev pub entry_of : SequencerEvent → Result JournalError JournalEntry
  entry_of event = ok (unchecked event)

  unfoldable pub entries_from : ℕ → List SequencerEvent → List (Result JournalError JournalEntry)
  entries_from sequence events =
      map entry_of (keep (λ (e : SequencerEvent). leb sequence e.sequence_num) events)

  -- The journal in memory as a journal.
  unfoldable pub in_memory : List SequencerEvent → Journal
  unfolding last_sequence_of entries_from
  in_memory events = record {
    read_from = λ sequence. ok (entries_from sequence events);
    last_sequence = last_sequence_of events;
  }
