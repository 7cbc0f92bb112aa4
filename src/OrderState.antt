-- ===== src/OrderState.antt =====
-- src/orderbook/order_state.rs: the lifecycle of orders and the tracker with its bounded memory of
-- terminal orders. The maps are association lists, the queue is oldest first, and what a listener is
-- told is a log, newest first. A call returns the new tracker.
pub mod Retention
pub mod History
use order_book_rs.Prelude.{
  ℕ, ◌+◌, ◌-◌, ◌≤◌, Bool, true, false, Option, none, some, List, [], ◌∷◌, ◌++◌, leb, ltb,
  if◌then◌else◌, length, min, keep, sum_of,
}
use order_book_rs.Prelude.Maps.{Map, lookup, insert, erase}
use order_book_rs.Prelude.Words.{u64_max}
use order_book_rs.Clock.{Clock, now_millis}
use order_book_rs.RejectReason.{RejectReason}

pub data CancelReason : Type 0 where
  user_requested self_trade_prevention time_in_force_expired : CancelReason
  mass_cancel_all mass_cancel_by_side mass_cancel_by_user mass_cancel_by_price_range : CancelReason
  insufficient_liquidity : CancelReason

pub data OrderStatus : Type 0 where
  opened : OrderStatus
  partially_filled : ℕ → ℕ → OrderStatus
  filled : ℕ → OrderStatus
  cancelled : ℕ → CancelReason → OrderStatus
  rejected : RejectReason → OrderStatus

unfoldable pub is_terminal : OrderStatus → Bool
is_terminal (OrderStatus.filled q) = true
is_terminal (OrderStatus.cancelled q r) = true
is_terminal (OrderStatus.rejected r) = true
is_terminal _ = false

unfoldable pub is_active : OrderStatus → Bool
is_active OrderStatus.opened = true
is_active (OrderStatus.partially_filled o q) = true
is_active _ = false

unfoldable pub filled_quantity : OrderStatus → ℕ
filled_quantity OrderStatus.opened = 0
filled_quantity (OrderStatus.partially_filled original q) = q
filled_quantity (OrderStatus.filled q) = q
filled_quantity (OrderStatus.cancelled q reason) = q
filled_quantity (OrderStatus.rejected reason) = 0

-- One call of the listener: the order, its old status and its new one.
pub record Notice : Type 0 where
  pub order_id : ℕ
  pub old_status : OrderStatus
  pub new_status : OrderStatus

pub record Tracker : Type 0 where
  pub states : Map OrderStatus
  pub history : Map (List (ℕ × OrderStatus))
  pub terminal_queue : List ℕ
  pub retention_capacity : ℕ
  pub has_listener : Bool
  pub notices : List Notice
  pub clock : Clock

-- `with_capacity_and_clock`
unfoldable pub with_capacity_and_clock : ℕ → Clock → Tracker
with_capacity_and_clock capacity clock = record {
  states = [];
  history = [];
  terminal_queue = [];
  retention_capacity = capacity;
  has_listener = false;
  notices = [];
  clock = clock;
}

unfoldable pub get : Tracker → ℕ → Option OrderStatus
get t order_id = lookup order_id t.states

unfoldable pub get_history : Tracker → ℕ → Option (List (ℕ × OrderStatus))
get_history t order_id = lookup order_id t.history

-- `states.get(&evicted_id)` is terminal.
abbrev pub ends : Option OrderStatus → Bool
ends none = false
ends (some status) = is_terminal status

-- One round of the eviction loop: an id that has left the queue goes, if it is terminal still.
pub evict : Tracker → ℕ → Tracker
evict t id =
    if ends (lookup id t.states)
    then record t { states = erase id t.states; history = erase id t.history }
    else t

-- `while queue.len() > capacity { pop_front .. }`: the queue shrinks in every round.
pub evict_excess : List ℕ → Tracker → Tracker
evict_excess [] t = record t { terminal_queue = [] }
evict_excess (id ∷ queue) t =
    if ltb t.retention_capacity (length (id ∷ queue))
    then evict_excess queue (evict t id)
    else record t { terminal_queue = id ∷ queue }

pub enqueue_terminal : Tracker → ℕ → Tracker
unfolding evict_excess
enqueue_terminal t id = evict_excess (t.terminal_queue ++ id ∷ []) t

-- `entry(id).or_default()`
abbrev pub or_default : Option (List (ℕ × OrderStatus)) → List (ℕ × OrderStatus)
or_default none = []
or_default (some h) = h

abbrev pub or_else : Option OrderStatus → OrderStatus → OrderStatus
or_else none s = s
or_else (some old) s = old

-- `transition` up to the enqueueing: the state, the history and the notice.
pub record_status : Tracker → ℕ → OrderStatus → Tracker
record_status t id status =
    let (ts, clock') = now_millis t.clock in
    record t {
      states = insert id status t.states;
      history = insert id (or_default (lookup id t.history) ++ (ts, status) ∷ []) t.history;
      notices =
          if t.has_listener
          then record {
            order_id = id;
            old_status = or_else (lookup id t.states) status;
            new_status = status;
          }
            ∷ t.notices
          else t.notices;
      clock = clock';
    }

pub transition : Tracker → ℕ → OrderStatus → Tracker
unfolding record_status enqueue_terminal
transition t id status =
    let t' = record_status t id status in if is_terminal status then enqueue_terminal t' id else t'

abbrev pub one_if : Bool → ℕ
one_if true = 1
one_if false = 0

unfoldable pub active_count : Tracker → ℕ
active_count t = sum_of (λ e. one_if (is_active e.1)) t.states

unfoldable pub terminal_count : Tracker → ℕ
terminal_count t = sum_of (λ e. one_if (is_terminal e.1)) t.states

-- `h.last().map(|(ts, _)| ts <= cutoff).unwrap_or(false)`
abbrev last_by : ℕ → List (ℕ × OrderStatus) → Bool
last_by cutoff [] = false
last_by cutoff ((ts, status) ∷ []) = leb ts cutoff
last_by cutoff (x ∷ y ∷ h) = last_by cutoff (y ∷ h)

-- What `purge_terminal_older_than` removes.
pub is_stale : Tracker → ℕ → ℕ × OrderStatus → Bool
is_stale t cutoff (id, status) =
    if is_terminal status then last_by cutoff (or_default (lookup id t.history)) else false

pub remove_all : List (ℕ × OrderStatus) → Tracker → Tracker
remove_all [] t = t
remove_all ((id, status) ∷ ids) t =
    remove_all ids (record t { states = erase id t.states; history = erase id t.history })

-- The duration in milliseconds, cut to a `u64`; the number purged and the new tracker.
pub purge_terminal_older_than : Tracker → ℕ → ℕ × Tracker
unfolding is_stale remove_all
purge_terminal_older_than t older_than =
    let (now, clock') = now_millis t.clock in
    let to_remove = keep (is_stale t (now - min older_than u64_max)) t.states in
    (length to_remove, remove_all to_remove (record t { clock = clock' }))

pub clear : Tracker → Tracker
clear t = record t { states = []; history = []; terminal_queue = [] }
