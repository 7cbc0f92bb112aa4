-- ===== src/OrderState/History.antt =====
-- What the tracker answers after a transition, the history behind each state, and the purge.
use order_book_rs.Prelude.{
  ℕ, ◌-◌, ◌≤◌, ◌≡◌, refl, Bool, true, false, Option, none, some, List, [], ◌∷◌, ◌++◌, inl, inr,
  arith, ◌==◌, if◌then◌else◌, if_cases, ltb, length, length-append, any, keep, subst, ==_iff,
  Bool-cases, min,
}
use order_book_rs.Prelude.Words.{u64_max}
use order_book_rs.Prelude.Maps.{Map, lookup, erase, IsDistinct, lookup-erase, lookup-insert}
use order_book_rs.Clock.{now_millis}
use order_book_rs.OrderState.{
  Tracker, OrderStatus, is_terminal, evict, evict_excess, enqueue_terminal, or_default, get,
  get_history, record_status, transition, is_stale, remove_all, purge_terminal_older_than,
}
use order_book_rs.OrderState.Retention.{
  evict-lookup, evict-capacity, record_status-lookup, queued, evict_excess_keeps,
}

-- The newest entry of a history.
abbrev pub last_status : List (ℕ × OrderStatus) → Option OrderStatus
last_status [] = none
last_status ((ts, s) ∷ []) = some s
last_status (x ∷ y ∷ h) = last_status (y ∷ h)

last_status-append :
    (h : List (ℕ × OrderStatus)) (ts : ℕ) (s : OrderStatus)
    → last_status (h ++ (ts, s) ∷ []) ≡ some s
last_status-append [] ts s = refl
last_status-append (x ∷ []) ts s = refl
last_status-append (x ∷ y ∷ h) ts s = last_status-append (y ∷ h) ts s

-- The state of every order is the newest entry of its history, and one is there if the other is.
abbrev pub IsSynced : Tracker → Type 0
IsSynced t = (j : ℕ) → lookup j t.states ≡ last_status (or_default (lookup j t.history))

evict-IsSynced : (t : Tracker) (id : ℕ) → IsSynced t → IsSynced (evict t id)
unfolding evict
evict-IsSynced t id h j =
    ground (arith, h j, lookup-erase id j t.states, lookup-erase id j t.history)

evict_excess-IsSynced : (q : List ℕ) (t : Tracker) → IsSynced t → IsSynced (evict_excess q t)
unfolding evict_excess
evict_excess-IsSynced [] t h = h
evict_excess-IsSynced (id ∷ q) t h =
    if_cases IsSynced (ltb t.retention_capacity (length (id ∷ q))) _ _
      (λ _. evict_excess-IsSynced q (evict t id) (evict-IsSynced t id h)) (λ _. h)

record_status-IsSynced :
    (t : Tracker) (id : ℕ) (s : OrderStatus) → IsSynced t → IsSynced (record_status t id s)
unfolding record_status
record_status-IsSynced t id s h j = ground (
  arith,
  h j,
  lookup-insert id j s t.states,
  lookup-insert id j (or_default (lookup id t.history) ++ ((now_millis t.clock).0, s) ∷ [])
      t.history,
  last_status-append (or_default (lookup id t.history)) (now_millis t.clock).0 s,
)

-- Each transition keeps the state of every order equal to the newest entry of its history, also where
-- it evicts.
pub transition-IsSynced :
    (t : Tracker) (id : ℕ) (s : OrderStatus) → IsSynced t → IsSynced (transition t id s)
unfolding transition enqueue_terminal
transition-IsSynced t id s h =
    if_cases IsSynced (is_terminal s) _ _
      (λ _.
        evict_excess-IsSynced ((record_status t id s).terminal_queue ++ id ∷ [])
          (record_status t id s) (record_status-IsSynced t id s h))
      (λ _. record_status-IsSynced t id s h)

-- Of a queue that ends in an id and does not name it before, the id itself is not evicted.
evict_excess-last :
    (q : List ℕ) (t : Tracker) (id : ℕ)
    → queued id q ≡ false
    → 1 ≤ t.retention_capacity
    → lookup id (evict_excess (q ++ id ∷ []) t).states ≡ lookup id t.states
unfolding evict_excess
evict_excess-last [] t id h cap = ground arith
evict_excess-last (i ∷ q) t id h cap =
    ground (arith, evict-lookup t i id, evict-capacity t i, evict_excess-last q (evict t i) id)

-- A transition is what the tracker answers next: at once for a status that is not final, and for a
-- final one if the capacity is not zero and the order has not ended before.
pub get-transition :
    (t : Tracker) (id : ℕ) (s : OrderStatus)
    → (is_terminal s ≡ true → (queued id t.terminal_queue ≡ false) × (1 ≤ t.retention_capacity))
    → get (transition t id s) id ≡ some s
unfolding get transition enqueue_terminal record_status
get-transition t id s h = elim (Bool-cases (is_terminal s)) [
  | inl final ↦ rw final (
      ground (
        arith,
        h final,
        record_status-lookup t id id s,
        evict_excess-last t.terminal_queue (record_status t id s) id,
      ))
  | inr live ↦ rw live (ground (arith, record_status-lookup t id id s))
]

-- An id that ended before and stands at the front of a full queue is forgotten by the very
-- transition that ends it again, though that entry is the newest.
pub transition_forgets :
    (t : Tracker) (id : ℕ) (q : List ℕ) (s : OrderStatus)
    → t.terminal_queue ≡ id ∷ q
    → t.retention_capacity ≡ length (id ∷ q)
    → is_terminal s ≡ true
    → get (transition t id s) id ≡ none
unfolding get transition enqueue_terminal evict_excess record_status
transition_forgets t id q s full cap final = ground (
  arith,
  length-append q (id ∷ []),
  record_status-lookup t id id s,
  evict-lookup (record_status t id s) id id,
  evict_excess_keeps (q ++ id ∷ []) (evict (record_status t id s) id) id,
)

-- `id` is a key of the list.
abbrev listed : ℕ → List (ℕ × OrderStatus) → Bool
listed j = any (λ e. e.0 == j)

remove_all-lookup :
    (es : List (ℕ × OrderStatus)) (t : Tracker) (j : ℕ)
    → (lookup j (remove_all es t).states ≡ (if listed j es then none else lookup j t.states))
      × (lookup j (remove_all es t).history ≡ (if listed j es then none else lookup j t.history))
unfolding remove_all
remove_all-lookup [] t j = (refl, refl)
remove_all-lookup (e ∷ es) t j = ground (
  arith,
  remove_all-lookup es (record t { states = erase e.0 t.states; history = erase e.0 t.history }) j,
  lookup-erase e.0 j t.states,
  lookup-erase e.0 j t.history,
)

-- Of a map with distinct keys the test keeps a key exactly when it holds of its entry.
abbrev pub holds_at : (ℕ × OrderStatus → Bool) → ℕ → Option OrderStatus → Bool
holds_at p j none = false
holds_at p j (some s) = p (j, s)

listed-keep :
    (p : ℕ × OrderStatus → Bool) (m : Map OrderStatus) (j : ℕ)
    → IsDistinct m
    → listed j (keep p m) ≡ holds_at p j (lookup j m)
listed-keep p [] j d = refl
listed-keep p ((k, s) ∷ m) j d = elim (Bool-cases (k == j)) [
  | inl hit ↦
      let e : k ≡ j = (==_iff k j).0 hit in
      rw e (ground (arith, subst (λ i. lookup i m ≡ none) e d.0, listed-keep p m j d.1))
  | inr miss ↦ ground (arith, listed-keep p m j d.1)
]

-- The cutoff of a purge that reads the clock at `now`.
abbrev pub cutoff_of : ℕ → ℕ → ℕ
cutoff_of now older_than = now - min older_than u64_max

-- Where no order is listed twice, a purge removes the state and the history of exactly the orders that
-- have ended with a newest entry no later than the cutoff, and keeps all others.
pub purge-lookup :
    (t : Tracker) (older_than j : ℕ)
    → IsDistinct t.states
    → let t' = (purge_terminal_older_than t older_than).1 in
      let stale =
        holds_at (is_stale t (cutoff_of (now_millis t.clock).0 older_than)) j (lookup j t.states) in
      (get t' j ≡ (if stale then none else get t j))
      × (get_history t' j ≡ (if stale then none else get_history t j))
unfolding purge_terminal_older_than get get_history
purge-lookup t older_than j d =
    let p = is_stale t (cutoff_of (now_millis t.clock).0 older_than) in
    rw (← listed-keep p t.states j d)
      (remove_all-lookup (keep p t.states) (record t { clock = (now_millis t.clock).1 }) j)
