-- ===== src/Repricing/Trailing.antt =====
-- The stop prices of a trailing order over a series of market prices.
use order_book_rs.Prelude.{
  ℕ, ◌-◌, ◌≤◌, ◌<◌, ◌≡◌, refl, sym, ap, ◌∙◌, ◌⊎◌, inl, inr, false, none, some, List, [], ◌∷◌, All,
  Any, arith,
}
use order_book_rs.Prelude.Words.{u128_max, sat_add}
use order_book_rs.Types.{Side, Order, OrderKind}
use order_book_rs.Repricing.{
  calculate_trailing_stop_price, reprice_trailing, stop_reached, should_trigger_trailing_stop,
}

-- The stop price after the market prices of a list, one re-pricing for each.
abbrev pub follow : Side → ℕ → ℕ → ℕ → List ℕ → ℕ
follow side trail reference stop [] = stop
follow side trail reference stop (m ∷ ms) =
    follow side trail reference (reprice_trailing side trail reference stop m) ms

-- The same for an order that stores the stop price and the reference price at each move.
abbrev pub stored : Side → ℕ → ℕ × ℕ → ℕ → ℕ × ℕ
stored side trail (stop, reference) m =
    elim (calculate_trailing_stop_price side stop trail reference m) [
      | none ↦ (stop, reference)
      | some moved ↦ moved
    ]

abbrev pub follow_stored : Side → ℕ → ℕ × ℕ → List ℕ → ℕ × ℕ
follow_stored side trail at [] = at
follow_stored side trail at (m ∷ ms) = follow_stored side trail (stored side trail at m) ms

-- What the two orders have in common: the reference of the one that stores it is the first one, or is
-- on the favourable side of it and the stop price trails it.
abbrev Agrees : Side → ℕ → ℕ → ℕ × ℕ → Type 0
Agrees Side.sell trail first (stop, reference) =
    (reference ≡ first) ⊎ ((first < reference) × (stop ≡ reference - trail))
Agrees Side.buy trail first (stop, reference) =
    (reference ≡ first) ⊎ ((reference < first) × (stop ≡ sat_add u128_max reference trail))

stored-Agrees :
    (side : Side) (trail first stop reference m : ℕ)
    → Agrees side trail first (stop, reference)
    → ((stored side trail (stop, reference) m).0 ≡ reprice_trailing side trail first stop m)
      × Agrees side trail first (stored side trail (stop, reference) m)
unfolding calculate_trailing_stop_price reprice_trailing
stored-Agrees Side.sell trail first stop reference m a = ground arith
stored-Agrees Side.buy trail first stop reference m a = ground arith

-- A stop order whose reference price is never moved has, after any series of market prices, the stop
-- price of one that stores its reference price at each move.
pub follow-stored :
    (side : Side) (trail reference stop : ℕ) (ms : List ℕ)
    → follow side trail reference stop ms ≡ (follow_stored side trail (stop, reference) ms).0
follow-stored side trail first stop ms = from ms (stop, first) (start side)
  where
    start : (side : Side) → Agrees side trail first (stop, first)
    start Side.sell = inl refl
    start Side.buy = inl refl

    from :
        (ms : List ℕ) (at : ℕ × ℕ)
        → Agrees side trail first at
        → follow side trail first at.0 ms ≡ (follow_stored side trail at ms).0
    from [] at a = refl
    from (m ∷ ms) at a =
        let (same, next) = stored-Agrees side trail first at.0 at.1 m a in
        ap (λ s. follow side trail first s ms) (sym same) ∙ from ms (stored side trail at m) next

-- The first price is on the favourable side of the second, or is it.
abbrev pub Tighter : Side → ℕ → ℕ → Type 0
Tighter Side.sell p q = q ≤ p
Tighter Side.buy p q = p ≤ q

-- The market price is a new high of a sell, a new low of a buy.
abbrev pub Beats : Side → ℕ → ℕ → Type 0
Beats Side.sell reference m = reference < m
Beats Side.buy reference m = m < reference

abbrev pub trailed : Side → ℕ → ℕ → ℕ
trailed Side.sell trail m = m - trail
trailed Side.buy trail m = sat_add u128_max m trail

reprice_trailing_cases :
    (side : Side) (trail reference stop m : ℕ)
    → Tighter side (reprice_trailing side trail reference stop m) stop
      × (Beats side reference m
          → Tighter side (reprice_trailing side trail reference stop m) (trailed side trail m))
      × ((reprice_trailing side trail reference stop m ≡ stop)
          ⊎ (Beats side reference m
              × (reprice_trailing side trail reference stop m ≡ trailed side trail m)))
unfolding reprice_trailing calculate_trailing_stop_price
reprice_trailing_cases Side.sell trail reference stop m = ground arith
reprice_trailing_cases Side.buy trail reference stop m = ground arith

moved-stop_reached :
    (side : Side) (trail reference stop m : ℕ) (moved : ℕ × ℕ)
    → 1 ≤ trail
    → reference ≤ u128_max
    → calculate_trailing_stop_price side stop trail reference m ≡ some moved
    → stop_reached side moved.0 m ≡ false
unfolding calculate_trailing_stop_price stop_reached
moved-stop_reached Side.sell trail reference stop m moved t b e = ground arith
moved-stop_reached Side.buy trail reference stop m moved t b e = ground arith

-- A stop that has just moved is not triggered at the market price that moved it, for a positive trail
-- and a reference price of 128 bits.
pub calculate_trailing_stop_price-quiet :
    (o : Order) (quantity trail reference stop m : ℕ) (moved : ℕ × ℕ)
    → o.kind ≡ OrderKind.trailing_stop quantity trail reference
    → 1 ≤ trail
    → reference ≤ u128_max
    → calculate_trailing_stop_price o.side stop trail reference m ≡ some moved
    → should_trigger_trailing_stop (record o { price = moved.0 }) m ≡ false
unfolding should_trigger_trailing_stop
calculate_trailing_stop_price-quiet o quantity trail reference stop m moved k t b e =
    rw k (moved-stop_reached o.side trail reference stop m moved t b e)

tight_refl : (side : Side) (p : ℕ) → Tighter side p p
tight_refl Side.sell p = omega arith
tight_refl Side.buy p = omega arith

tight_trans : (side : Side) (p q r : ℕ) → Tighter side p q → Tighter side q r → Tighter side p r
tight_trans Side.sell p q r h k = omega arith
tight_trans Side.buy p q r h k = omega arith

-- The stop price after a series of market prices is the tightest of the first one and those that trail
-- the prices beyond the reference: it is at least as tight as each of them, and it is one of them.
pub follow-tightest :
    (side : Side) (trail reference stop : ℕ) (ms : List ℕ)
    → Tighter side (follow side trail reference stop ms) stop
      × All
          (λ m.
            Beats side reference m
            → Tighter side (follow side trail reference stop ms) (trailed side trail m))
          ms
      × ((follow side trail reference stop ms ≡ stop)
          ⊎ Any
              (λ m.
                Beats side reference m
                × (follow side trail reference stop ms ≡ trailed side trail m))
              ms)
follow-tightest side trail reference stop [] = (tight_refl side stop, tt, inl refl)
follow-tightest side trail reference stop (m ∷ ms) =
    let s = reprice_trailing side trail reference stop m in
    let last = follow side trail reference s ms in
    let (here_stop, here_market, here_from) = reprice_trailing_cases side trail reference stop m in
    let (tight, markets, from) = follow-tightest side trail reference s ms in
    (
      tight_trans side last s stop tight here_stop,
      ((λ b. tight_trans side last s (trailed side trail m) tight (here_market b)), markets),
      elim from [
        | inr later ↦ inr (inr later)
        | inl e ↦ elim here_from [ inl k ↦ inl (e ∙ k) | inr (b, k) ↦ inr (inl (b, e ∙ k)) ]
      ],
    )
