-- ===== src/Repricing/Passes/Idle.antt =====
-- When a pass over the pegged orders has nothing to do (`reprice_pegged_collecting`).
use order_book_rs.Prelude.{
  ℕ, suc, ◌+◌, ◌≤◌, ◌≡◌, refl, sym, ap, subst, ◌∙◌, ◌↔◌, inl, inr, Option, none, some, List, [],
  ◌∷◌, length, All, arith, Option-cases, option_cases, length-append,
}
use order_book_rs.Prelude.Result.{Result, ok, err}
use order_book_rs.Types.{Side, Order, OrderKind}
use order_book_rs.Error.{BookError}
use order_book_rs.PriceLevel.{PriceLevels}
use order_book_rs.Book.{Book}
use order_book_rs.Queries.{get_order}
use order_book_rs.Modify.{OrderUpdate, update_order}
use order_book_rs.Repricing.{Market, calculate_pegged_price}
use order_book_rs.Repricing.Passes.{
  Tally, moved_from, peg_move, peg_move_as, settle, reprice_found, reprice_one, reprice_each,
  unregister_pegged_order, market_of, reprice_pegs, reprice_pegged_collecting,
}

-- Where an order of a kind is pegged and its peg is given a price, it stands at that price.
abbrev pub StandsAt : Market → Option ℕ → Side → ℕ → OrderKind → Type 0
StandsAt m tick side current (OrderKind.pegged quantity reference offset) =
    (price : ℕ) → calculate_pegged_price reference offset side m tick ≡ some price → price ≡ current
StandsAt m tick side current kind = Unit

none_some : {A : Type 0} (o : Option A) (a : A) → o ≡ none → o ≡ some a → ⊥
none_some o a e f = cc

same_some : {A : Type 0} (o : Option A) (a a' : A) → o ≡ some a → o ≡ some a' → a ≡ a'
same_some o a a' e f = cc

moved_from-none :
    (current : ℕ) (price : Option ℕ)
    → (moved_from current price ≡ none) ↔ ((p : ℕ) → price ≡ some p → p ≡ current)
moved_from-none current none = (λ e p h. cc, λ h. refl)
moved_from-none current (some q) = (λ e p h. ground arith, λ h. ground (arith, h q refl))

peg_move_as-none :
    (m : Market) (tick : Option ℕ) (side : Side) (current : ℕ) (kind : OrderKind)
    → (peg_move_as m tick side current kind ≡ none) ↔ StandsAt m tick side current kind
unfolding peg_move_as
peg_move_as-none m tick side current (OrderKind.pegged q reference offset) =
    moved_from-none current (calculate_pegged_price reference offset side m tick)
peg_move_as-none m tick side current (OrderKind.standard q) = (λ e. tt, λ h. refl)
peg_move_as-none m tick side current (OrderKind.post_only q) = (λ e. tt, λ h. refl)
peg_move_as-none m tick side current (OrderKind.market_to_limit q) = (λ e. tt, λ h. refl)
peg_move_as-none m tick side current (OrderKind.trailing_stop q trail reference) =
    (λ e. tt, λ h. refl)
peg_move_as-none m tick side current (OrderKind.iceberg q hidden) = (λ e. tt, λ h. refl)
peg_move_as-none m tick side current (OrderKind.reserve q hidden amount auto) = (λ e. tt, λ h. refl)

-- The updates that a pass has asked for, carried out or refused.
abbrev pub attempts : Tally → ℕ
attempts t = t.repriced + length t.failed

module _ (P : PriceLevels) where
  -- The order of an id, if it rests, stands at the price of its peg.
  abbrev pub IsInPlace : Market → Book P → ℕ → Type 0
  IsInPlace m b id =
      (o : Order) → get_order P b id ≡ some o → StandsAt m b.tick_size o.side o.price o.kind

  settle-attempts :
      (id price : ℕ) (t : Tally) (r : Result BookError (Option Order) × Book P)
      → attempts (settle P id price t r).0 ≡ suc (attempts t)
  unfolding settle
  settle-attempts id price t (ok o, b) = omega arith
  settle-attempts id price t (err e, b) =
      omega (arith, length-append t.failed ((id, price, e) ∷ []))

  module _ (price_of : Book P → Order → Option ℕ × Book P) (unregister : ℕ → Book P → Book P) where
    -- An order is attempted at most once.
    AtMostOne : ℕ → Tally × Book P → Type 0
    AtMostOne n s = (n ≤ attempts s.0) × (attempts s.0 ≤ suc n)

    reprice_found-attempts :
        (id : ℕ) (t : Tally) (found : Option ℕ × Book P)
        → AtMostOne (attempts t) (reprice_found P price_of unregister id t found)
    unfolding reprice_found AtMostOne
    reprice_found-attempts id t (none, b) = (omega arith, omega arith)
    reprice_found-attempts id t (some price, b) =
        let e = settle-attempts id price t (update_order P b (OrderUpdate.update_price id price)) in
        (omega (arith, e), omega (arith, e))

    reprice_one-attempts :
        (id : ℕ) (s : Tally × Book P)
        → AtMostOne (attempts s.0) (reprice_one P price_of unregister id s)
    unfolding reprice_one AtMostOne
    reprice_one-attempts id (t, b) =
        option_cases (AtMostOne (attempts t)) (get_order P b id) _ _
          (λ _. (omega arith, omega arith)) (λ o _. reprice_found-attempts id t (price_of b o))

    -- A loop attempts at most as many orders as it has ids.
    reprice_each-attempts :
        (ids : List ℕ) (s : Tally × Book P)
        → let n = attempts (reprice_each P price_of unregister ids s).0 in
          (attempts s.0 ≤ n) × (n ≤ attempts s.0 + length ids)
    unfolding reprice_each AtMostOne
    reprice_each-attempts [] s = (omega arith, omega arith)
    reprice_each-attempts (id ∷ ids) s =
        let one = reprice_one-attempts id s in
        let each = reprice_each-attempts ids (reprice_one P price_of unregister id s) in
        (omega (arith, one.0, each.0), omega (arith, one.1, each.1))

  module _ (m : Market) where
    abbrev price_of : Book P → Order → Option ℕ × Book P
    price_of b o = (peg_move m b.tick_size o, b)

    abbrev unregister : ℕ → Book P → Book P
    unregister = unregister_pegged_order P

    -- The attempts of a loop over the pegs, from a tally and a book.
    abbrev after : List ℕ → Tally × Book P → ℕ
    after ids s = attempts (reprice_each P price_of unregister ids s).0

    one_missing :
        (id : ℕ) (t : Tally) (b : Book P)
        → get_order P b id ≡ none
        → reprice_one P price_of unregister id (t, b) ≡ (t, unregister id b)
    unfolding reprice_one
    one_missing id t b e = rw (reprice_one, e) refl

    one_found :
        (id : ℕ) (t : Tally) (b : Book P) (o : Order) (move : Option ℕ)
        → get_order P b id ≡ some o
        → peg_move m b.tick_size o ≡ move
        → reprice_one P price_of unregister id (t, b)
          ≡ reprice_found P price_of unregister id t (move, b)
    unfolding reprice_one
    one_found id t b o move e p = rw (reprice_one, e, p) refl

    after_step :
        (id : ℕ) (ids : List ℕ) (s s' : Tally × Book P)
        → reprice_one P price_of unregister id s ≡ s'
        → after (id ∷ ids) s ≡ after ids s'
    unfolding reprice_each
    after_step id ids s s' e = ap (λ s. after ids s) e

    abbrev IsIdle : List ℕ → Tally → Book P → Type 0
    IsIdle ids t b = (after ids (t, b) ≡ attempts t) ↔ All (IsInPlace m b) ids

    -- An order that is not there is in place, and only struck from the set.
    missing-IsIdle :
        (id : ℕ) (ids : List ℕ) (t : Tally) (b : Book P)
        → get_order P b id ≡ none
        → IsIdle ids t (unregister id b)
        → IsIdle (id ∷ ids) t b
    unfolding unregister_pegged_order get_order
    missing-IsIdle id ids t b e (to, from) =
        let step = after_step id ids (t, b) (t, unregister id b) (one_missing id t b e) in
        ((λ h. ((λ o f. absurd (none_some _ o e f)), to (sym step ∙ h))), λ h. step ∙ from h.1)

    standing-IsIdle :
        (id : ℕ) (ids : List ℕ) (t : Tally) (b : Book P) (o : Order)
        → get_order P b id ≡ some o
        → peg_move m b.tick_size o ≡ none
        → IsIdle ids t b
        → IsIdle (id ∷ ids) t b
    unfolding reprice_found peg_move
    standing-IsIdle id ids t b o e p (to, from) =
        let step = after_step id ids (t, b) (t, b) (one_found id t b o none e p) in
        let stands = (peg_move_as-none m b.tick_size o.side o.price o.kind).0 p in
        (
          (λ h. (
            (λ o' f.
                subst (λ (x : Order). StandsAt m b.tick_size x.side x.price x.kind)
                  (same_some _ o o' e f) stands),
            to (sym step ∙ h),
          )),
          λ h. step ∙ from h.1,
        )

    moving-IsIdle :
        (id : ℕ) (ids : List ℕ) (t : Tally) (b : Book P) (o : Order) (price : ℕ)
        → get_order P b id ≡ some o
        → peg_move m b.tick_size o ≡ some price
        → IsIdle (id ∷ ids) t b
    unfolding reprice_found peg_move
    moving-IsIdle id ids t b o price e p =
        let next = reprice_found P price_of unregister id t (some price, b) in
        let step = after_step id ids (t, b) next (one_found id t b o (some price) e p) in
        let one : attempts next.0 ≡ suc (attempts t) =
          settle-attempts id price t (update_order P b (OrderUpdate.update_price id price)) in
        let each = reprice_each-attempts price_of unregister ids next in
        (
          (λ h. absurd (omega (arith, step, one, each.0, h))),
          λ h. absurd (
              none_some _ price ((peg_move_as-none m b.tick_size o.side o.price o.kind).1 (h.0 o e))
                p),
        )

    reprice_each-IsIdle : (ids : List ℕ) (t : Tally) (b : Book P) → IsIdle ids t b
    unfolding reprice_each
    reprice_each-IsIdle [] t b = ((λ h. tt), λ h. refl)
    reprice_each-IsIdle (id ∷ ids) t b = elim (Option-cases (get_order P b id)) [
      | inl e ↦ missing-IsIdle id ids t b e (reprice_each-IsIdle ids t (unregister id b))
      | inr (o, e) ↦ elim (Option-cases (peg_move m b.tick_size o)) [
        | inl p ↦ standing-IsIdle id ids t b o e p (reprice_each-IsIdle ids t b)
        | inr (price, p) ↦ moving-IsIdle id ids t b o price e p
      ]
    ]

  reprice_pegs-idle :
      (by_text : List ℕ → List ℕ) (mean : ℕ → ℕ → ℕ) (ids : List ℕ) (b : Book P)
      → let (m, b') = market_of P by_text mean b in
        let n = attempts (reprice_pegs P by_text mean ids [] b).0 in
        (n ≤ length ids) × ((n ≡ 0) ↔ All (IsInPlace m b') ids)
  unfolding reprice_pegs
  reprice_pegs-idle by_text mean [] b = (omega arith, ((λ h. tt), λ h. refl))
  reprice_pegs-idle by_text mean (id ∷ ids) b =
      let (m, b') = market_of P by_text mean b in
      let t : Tally = record { repriced = 0; failed = [] } in
      let (least, most) = reprice_each-attempts (price_of m) (unregister m) (id ∷ ids) (t, b') in
      (omega (arith, most), reprice_each-IsIdle m (id ∷ ids) t b')

  -- A pass over the pegs asks for at most one update for each id in its list of registered orders; and it
  -- asks for none exactly if every order of the list that rests stands at the price of its peg wherever
  -- the market of the book gives the peg a price.
  pub reprice_pegged-idle :
      (by_text : List ℕ → List ℕ) (mean : ℕ → ℕ → ℕ) (b : Book P)
      → let (m, b') = market_of P by_text mean b in
        let ids = by_text b.pegged_orders in
        let n = attempts (reprice_pegged_collecting P by_text mean [] b).0 in
        (n ≤ length ids) × ((n ≡ 0) ↔ All (IsInPlace m b') ids)
  unfolding reprice_pegged_collecting
  reprice_pegged-idle by_text mean b = reprice_pegs-idle by_text mean (by_text b.pegged_orders) b
