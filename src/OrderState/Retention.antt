-- ===== src/OrderState/Retention.antt =====
-- The bounded memory of terminal orders: what is evicted, what never is, and how many there are.
use order_book_rs.Prelude.{
  ℕ, ◌≤◌, ◌≡◌, ◌≢◌, refl, Bool, true, false, ◌||◌, ◌&&◌, none, some, List, [], ◌∷◌, ◌++◌, arith,
  ◌==◌, if◌then◌else◌, if_cases, ltb, length, any, sum_of,
}
use order_book_rs.Prelude.Maps.{
  Map, lookup, erase, IsDistinct, lookup-erase, lookup-insert, total, total-erase, erase-IsDistinct,
  insert-IsDistinct,
}
use order_book_rs.OrderState.{
  Tracker, OrderStatus, is_terminal, ends, evict, evict_excess, enqueue_terminal, record_status,
  transition, terminal_count, one_if,
}

pub evict-lookup :
    (t : Tracker) (id j : ℕ)
    → lookup j (evict t id).states
      ≡ (if id == j && ends (lookup id t.states) then none else lookup j t.states)
unfolding evict
evict-lookup t id j = ground (arith, lookup-erase id j t.states)

-- An order that has not ended is never evicted.
pub evict_excess_keeps :
    (q : List ℕ) (t : Tracker) (j : ℕ)
    → ends (lookup j t.states) ≡ false
    → lookup j (evict_excess q t).states ≡ lookup j t.states
unfolding evict_excess
evict_excess_keeps [] t j h = refl
evict_excess_keeps (id ∷ q) t j h =
    ground (arith, evict-lookup t id j, evict_excess_keeps q (evict t id) j)

pub evict-capacity : (t : Tracker) (id : ℕ) → (evict t id).retention_capacity ≡ t.retention_capacity
unfolding evict
evict-capacity t id = ground arith

evict_excess-within :
    (q : List ℕ) (t : Tracker)
    → (length (evict_excess q t).terminal_queue ≤ t.retention_capacity)
      × ((evict_excess q t).retention_capacity ≡ t.retention_capacity)
unfolding evict_excess
evict_excess-within [] t = ground arith
evict_excess-within (id ∷ q) t =
    ground (arith, evict-capacity t id, evict_excess-within q (evict t id))

-- `j` stands in the queue.
abbrev pub queued : ℕ → List ℕ → Bool
queued j = any (λ i. i == j)

-- Every order that has ended stands in the queue.
abbrev pub IsQueued : List ℕ → Tracker → Type 0
IsQueued q t = (j : ℕ) → ends (lookup j t.states) ≡ true → queued j q ≡ true

evict-IsQueued : (t : Tracker) (id : ℕ) (q : List ℕ) → IsQueued (id ∷ q) t → IsQueued q (evict t id)
evict-IsQueued t id q h j e = ground (arith, h j, evict-lookup t id j)

evict_excess-IsQueued :
    (q : List ℕ) (t : Tracker)
    → IsQueued q t
    → IsQueued (evict_excess q t).terminal_queue (evict_excess q t)
unfolding evict_excess
evict_excess-IsQueued [] t h = h
evict_excess-IsQueued (id ∷ q) t h =
    if_cases (λ (u : Tracker). IsQueued u.terminal_queue u)
      (ltb t.retention_capacity (length (id ∷ q))) _ _
      (λ over. evict_excess-IsQueued q (evict t id) (evict-IsQueued t id q h)) (λ fits. h)

evict-IsDistinct : (t : Tracker) (id : ℕ) → IsDistinct t.states → IsDistinct (evict t id).states
unfolding evict
evict-IsDistinct t id d = ground (arith, erase-IsDistinct id t.states d)

evict_excess-IsDistinct :
    (q : List ℕ) (t : Tracker) → IsDistinct t.states → IsDistinct (evict_excess q t).states
unfolding evict_excess
evict_excess-IsDistinct [] t d = d
evict_excess-IsDistinct (id ∷ q) t d =
    if_cases (λ (u : Tracker). IsDistinct u.states) (ltb t.retention_capacity (length (id ∷ q))) _ _
      (λ over. evict_excess-IsDistinct q (evict t id) (evict-IsDistinct t id d)) (λ fits. d)

pub record IsBounded (t : Tracker) : Type 0 where
  pub distinct : IsDistinct t.states
  pub waiting : IsQueued t.terminal_queue t
  pub within : length t.terminal_queue ≤ t.retention_capacity

queued-append : (j i : ℕ) (q : List ℕ) → queued j (q ++ i ∷ []) ≡ (queued j q || i == j)
queued-append j i [] = ground arith
queued-append j i (x ∷ q) = ground (arith, queued-append j i q)

pub record_status-lookup :
    (t : Tracker) (id j : ℕ) (s : OrderStatus)
    → lookup j (record_status t id s).states ≡ (if id == j then some s else lookup j t.states)
unfolding record_status
record_status-lookup t id j s = lookup-insert id j s t.states

-- The state after `record_status`, before the queue is cut.
module _ (t : Tracker) (id : ℕ) (s : OrderStatus) (b : IsBounded t) where
  record_status-IsDistinct : IsDistinct (record_status t id s).states
  unfolding record_status
  record_status-IsDistinct = insert-IsDistinct id s t.states b.distinct

  pushed-IsQueued : IsQueued (t.terminal_queue ++ id ∷ []) (record_status t id s)
  pushed-IsQueued j e =
      ground
        (arith, b.waiting j, record_status-lookup t id j s, queued-append j id t.terminal_queue)

  kept-IsQueued : is_terminal s ≡ false → IsQueued t.terminal_queue (record_status t id s)
  kept-IsQueued active j e = ground (arith, b.waiting j, record_status-lookup t id j s)

  enqueue_terminal-IsBounded : IsBounded (enqueue_terminal (record_status t id s) id)
  unfolding enqueue_terminal record_status
  enqueue_terminal-IsBounded = record {
    distinct =
        evict_excess-IsDistinct (t.terminal_queue ++ id ∷ []) (record_status t id s)
          record_status-IsDistinct;
    waiting =
        evict_excess-IsQueued (t.terminal_queue ++ id ∷ []) (record_status t id s) pushed-IsQueued;
    within =
        ground (arith, evict_excess-within (t.terminal_queue ++ id ∷ []) (record_status t id s));
  }

  active-IsBounded : is_terminal s ≡ false → IsBounded (record_status t id s)
  unfolding record_status
  active-IsBounded active = record {
    distinct = record_status-IsDistinct;
    waiting = kept-IsQueued active;
    within = b.within;
  }

-- A transition keeps a tracker bounded: no order is listed twice, every ended order stands in the
-- queue, and the queue is within the capacity.
pub transition-IsBounded :
    (t : Tracker) (id : ℕ) (s : OrderStatus) → IsBounded t → IsBounded (transition t id s)
unfolding transition
transition-IsBounded t id s b =
    if_cases IsBounded (is_terminal s) _ _ (λ _. enqueue_terminal-IsBounded t id s b)
      (active-IsBounded t id s b)

no_ended :
    (m : Map OrderStatus)
    → IsDistinct m
    → ((j : ℕ) → ends (lookup j m) ≡ false)
    → total (λ s. one_if (is_terminal s)) m ≡ 0
no_ended [] d h = refl
no_ended ((k, s) ∷ m) d h = ground (arith, h k, no_ended m d.1 λ j. ground (arith, d.0, h j))

-- A list of ids bounds the number of ended orders that all stand in it.
ended_le :
    (q : List ℕ) (m : Map OrderStatus)
    → IsDistinct m
    → ((j : ℕ) → ends (lookup j m) ≡ true → queued j q ≡ true)
    → total (λ s. one_if (is_terminal s)) m ≤ length q
ended_le [] m d h = omega (arith, no_ended m d λ j. ground (arith, h j))
ended_le (i ∷ q) m d h =
    let rest =
      ended_le q (erase i m) (erase-IsDistinct i m d)
        (λ j e. ground (arith, h j, lookup-erase i j m)) in
    ground (arith, rest, total-erase (λ s. one_if (is_terminal s)) i m d)

terminal_count-total :
    (m : Map OrderStatus)
    → sum_of (λ (e : ℕ × OrderStatus). one_if (is_terminal e.1)) m
      ≡ total (λ s. one_if (is_terminal s)) m
terminal_count-total [] = refl
terminal_count-total (e ∷ m) = omega (arith, terminal_count-total m)

-- A bounded tracker remembers at most `retention_capacity` ended orders.
pub terminal_count-le-capacity :
    (t : Tracker) → IsBounded t → terminal_count t ≤ t.retention_capacity
unfolding terminal_count
terminal_count-le-capacity t b = omega (
  arith,
  b.within,
  ended_le t.terminal_queue t.states b.distinct b.waiting,
  terminal_count-total t.states,
)

-- A transition of one order leaves every other order that has not ended as it was.
pub transition_keeps_active :
    (t : Tracker) (id j : ℕ) (s : OrderStatus)
    → id ≢ j
    → ends (lookup j t.states) ≡ false
    → lookup j (transition t id s).states ≡ lookup j t.states
unfolding transition enqueue_terminal
transition_keeps_active t id j s ne active = ground (
  arith,
  record_status-lookup t id j s,
  evict_excess_keeps ((record_status t id s).terminal_queue ++ id ∷ []) (record_status t id s) j,
)
