-- ===== src/Tests/Lifecycle.antt =====
-- The properties of the order-state tracker, at concrete trackers.
use order_book_rs.Prelude.{◌≡◌, refl, true, none, some, [], ◌∷◌, arith, if◌then◌else◌}
use order_book_rs.OrderState.{
  Tracker, OrderStatus, CancelReason, transition, get, get_history, is_stale,
  purge_terminal_older_than, is_terminal,
}
use order_book_rs.OrderState.Retention.{IsBounded, transition-IsBounded}
use order_book_rs.OrderState.History.{transition_forgets, purge-lookup, holds_at, cutoff_of}

-- Order 1 is filled, order 2 rests; one ended order is remembered.
abbrev tracker : Tracker
tracker = record {
  states = (1, OrderStatus.filled 5) ∷ (2, OrderStatus.opened) ∷ [];
  history =
      (1, (10, OrderStatus.opened) ∷ (20, OrderStatus.filled 5) ∷ [])
      ∷ (2, (15, OrderStatus.opened) ∷ [])
      ∷ [];
  terminal_queue = 1 ∷ [];
  retention_capacity = 1;
  has_listener = true;
  notices = [];
  clock = record { reading = λ n. 100; reads = 0 };
}

abbrev ended : OrderStatus
ended = OrderStatus.cancelled 0 CancelReason.user_requested

tracker-IsBounded : IsBounded tracker
unfolding is_terminal
tracker-IsBounded = record {
  distinct = (refl, (refl, tt));
  waiting = λ j e. ground arith;
  within = omega arith;
}

transition_example : IsBounded (transition tracker 2 ended)
transition_example = transition-IsBounded tracker 2 ended tracker-IsBounded

final : is_terminal ended ≡ true
unfolding is_terminal
final = refl

forgets_example : get (transition tracker 1 ended) 1 ≡ none
forgets_example = transition_forgets tracker 1 [] ended refl refl final

purge_example :
    let t' = (purge_terminal_older_than tracker 50).1 in
    let stale = holds_at (is_stale tracker (cutoff_of 100 50)) 1 (some (OrderStatus.filled 5)) in
    (get t' 1 ≡ (if stale then none else get tracker 1))
    × (get_history t' 1 ≡ (if stale then none else get_history tracker 1))
purge_example = purge-lookup tracker 50 1 (refl, (refl, tt))
