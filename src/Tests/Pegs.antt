-- ===== src/Tests/Pegs.antt =====
-- The properties of the re-pricing formulas, at concrete inputs.
use order_book_rs.Prelude.{ℕ, ◌≡◌, refl, none, some, [], ◌∷◌, arith}
use order_book_rs.Prelude.Int.{pos, negsuc}
use order_book_rs.Types.{Side, PegReferenceType}
use order_book_rs.Repricing.{
  Market, reference_price, raw_target, tick_step, touch, clamp, snap, min_price, crosses,
  passive_price, unless_crossing, calculate_pegged_price, calculate_trailing_stop_price,
  reprice_trailing,
}
use order_book_rs.Repricing.Pegged.{
  IsClosest, calculate_pegged_price-IsClosest, calculate_pegged_price-rests,
}
use order_book_rs.Repricing.Trailing.{follow, follow_stored, follow-stored}

abbrev quoted : Market
quoted = record {
  best_bid = some 100;
  best_ask = some 106;
  mid_price = some 103;
  last_trade = none;
}

-- A buy five above the best bid is held one tick of two below the ask.
held : calculate_pegged_price PegReferenceType.best_bid (pos 5) Side.buy quoted (some 2) ≡ some 104
unfolding calculate_pegged_price reference_price raw_target tick_step touch passive_price clamp snap
    min_price unless_crossing crosses
held = refl

closest_example :
    IsClosest Side.buy (touch Side.buy quoted) (tick_step (some 2)) (raw_target 100 (pos 5)) 104
unfolding reference_price tick_step touch
closest_example =
    calculate_pegged_price-IsClosest PegReferenceType.best_bid (pos 5) Side.buy quoted (some 2) 100
      104 refl held (53, refl)

rests_example :
    (p : ℕ) × (calculate_pegged_price PegReferenceType.best_ask (negsuc 8) Side.sell quoted (some 2)
      ≡ some p)
unfolding reference_price touch
rests_example =
    calculate_pegged_price-rests PegReferenceType.best_ask (negsuc 8) Side.sell quoted (some 2) 106
      refl (omega arith)

-- No tick is left below an ask of one tick.
squeezed :
    calculate_pegged_price PegReferenceType.mid_price
      (pos 0)
      Side.buy
      (record quoted { best_ask = some 2 })
      (some 2)
    ≡ none
unfolding calculate_pegged_price reference_price raw_target tick_step touch passive_price clamp snap
    min_price unless_crossing crosses
squeezed = refl

-- A sell stop follows the highs of 100, 120, 110 and 130 by ten, from a reference of 90.
followed : follow Side.sell 10 90 80 (100 ∷ 120 ∷ 110 ∷ 130 ∷ []) ≡ 120
unfolding reprice_trailing calculate_trailing_stop_price
followed = refl

stored_example :
    follow Side.sell 10 90 80 (100 ∷ 120 ∷ 110 ∷ 130 ∷ [])
    ≡ (follow_stored Side.sell 10 (80, 90) (100 ∷ 120 ∷ 110 ∷ 130 ∷ [])).0
stored_example = follow-stored Side.sell 10 90 80 (100 ∷ 120 ∷ 110 ∷ 130 ∷ [])
