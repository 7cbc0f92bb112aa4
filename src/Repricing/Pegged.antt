-- ===== src/Repricing/Pegged.antt =====
-- The price of a peg against the grid of ticks and the touch.
use native.Mathlib.Nat.{mul_comm, div-mul-le_self}
use native.Mathlib.Omega.{min_cases, max_cases}
use order_book_rs.Prelude.{
  ℕ, ◌-◌, ◌*◌, ◌/◌, ◌≤◌, ◌<◌, ◌≡◌, refl, sym, subst, ◌∙◌, ◌⊎◌, inl, inr, false, Option, none, some,
  arith, ltb, min, if_cases,
}
use order_book_rs.Prelude.Int.{ℤ}
use order_book_rs.Prelude.Words.{u128_max, sat_add, sat_mul}
use order_book_rs.Types.{Side, PegReferenceType}
use order_book_rs.Repricing.Grid.{
  OnGrid, grid_gap, grid_least, round_down_best, round_up_best, round_up_above,
}
use order_book_rs.Repricing.{
  Market, reference_price, raw_target, tick_step, touch, clamp, div_ceil, snap, min_price, crosses,
  passive_price, unless_crossing, calculate_pegged_price,
}
use Prim.Native.Nat.{max}

tick_step-pos : (t : Option ℕ) → 1 ≤ tick_step t
unfolding tick_step
tick_step-pos none = omega arith
tick_step-pos (some t) = ground arith

-- A price that does not reach the touch.
abbrev pub Passive : Side → Option ℕ → ℕ → Type 0
Passive side none p = Unit
Passive Side.buy (some ask) p = p < ask
Passive Side.sell (some bid) p = bid < p

-- The second price is at least as passive as the first.
abbrev pub Beyond : Side → ℕ → ℕ → Type 0
Beyond Side.buy p q = q ≤ p
Beyond Side.sell p q = p ≤ q

abbrev pub TouchOnGrid : ℕ → Option ℕ → Type 0
TouchOnGrid step none = Unit
TouchOnGrid step (some p) = OnGrid step p

-- A peg can rest: the ask leaves a tick, or the bid is not the greatest price.
abbrev pub Room : Side → Option ℕ → ℕ → Type 0
Room side none step = Unit
Room Side.buy (some ask) step = step < ask
Room Side.sell (some bid) step = bid < u128_max

clamp-Beyond :
    (side : Side) (best : Option ℕ) (step target q : ℕ)
    → TouchOnGrid step best
    → OnGrid step q
    → Passive side best q
    → Beyond side target q
    → Beyond side (clamp side best step target) q
unfolding clamp
clamp-Beyond side none step target q g k v w = w
clamp-Beyond Side.buy (some ask) step target q g k v w = omega (arith, grid_gap step q ask k g v)
clamp-Beyond Side.sell (some bid) step target q g k v w = omega (arith, grid_gap step bid q g k v)

snap-Beyond :
    (side : Side) (step p q : ℕ)
    → 1 ≤ step
    → OnGrid step q
    → Beyond side p q
    → Beyond side (snap side step p) q
unfolding snap
snap-Beyond Side.buy step p q s k w = ground (arith, round_down_best step p q s k w)
snap-Beyond Side.sell step p q s k w = ground (arith, round_up_best step p q s k w)

floor-Beyond :
    (side : Side) (step p q : ℕ)
    → 1 ≤ step
    → 1 ≤ q
    → OnGrid step q
    → Beyond side p q
    → Beyond side (max p (min_price step)) q
unfolding min_price
floor-Beyond Side.buy step p q s o k w = omega arith
floor-Beyond Side.sell step p q s o k w = ground (arith, grid_least step q o k)

passive_price-rests :
    (side : Side) (best : Option ℕ) (step target : ℕ)
    → 1 ≤ step
    → Room side best step
    → crosses side best (passive_price side best step target) ≡ false
unfolding crosses passive_price clamp snap min_price
passive_price-rests side none step target s r = refl
passive_price-rests Side.buy (some ask) step target s r =
    ground (arith, div-mul-le_self (min target (ask - step)) step)
passive_price-rests Side.sell (some bid) step target s r =
    ground (arith, round_up_above step (max target (sat_add u128_max bid step)) s)

-- A price is at or on the passive side of the target, or at the bound of the prices there.
abbrev pub Reaches : Side → ℕ → ℕ → ℕ → Type 0
Reaches Side.buy step target p = (p ≤ target) ⊎ (p ≡ step)
Reaches Side.sell step target p = (target ≤ p) ⊎ (u128_max ≤ p)

passive_price-Reaches :
    (side : Side) (best : Option ℕ) (step target : ℕ)
    → 1 ≤ step
    → Reaches side step target (passive_price side best step target)
unfolding passive_price clamp snap min_price
passive_price-Reaches Side.buy none step target s = ground (arith, div-mul-le_self target step)
passive_price-Reaches Side.buy (some ask) step target s =
    ground (arith, div-mul-le_self (min target (ask - step)) step)
passive_price-Reaches Side.sell none step target s = ground (arith, round_up_above step target s)
passive_price-Reaches Side.sell (some bid) step target s =
    ground (arith, round_up_above step (max target (sat_add u128_max bid step)) s)

unless_crossing-Passive :
    (side : Side) (best : Option ℕ) (x p : ℕ)
    → unless_crossing side best x ≡ some p
    → (x ≡ p) × Passive side best p
unfolding unless_crossing crosses
unless_crossing-Passive side none x p e = ground arith
unless_crossing-Passive Side.buy (some ask) x p e = ground arith
unless_crossing-Passive Side.sell (some bid) x p e = ground arith

-- A whole number of ticks; a sell that the greatest price of the word cuts off may be off the grid.
abbrev pub Settled : Side → ℕ → ℕ → Type 0
Settled Side.buy step p = OnGrid step p
Settled Side.sell step p = OnGrid step p ⊎ (p ≡ u128_max)

floor_keeps : (P : ℕ → Type 0) (p least : ℕ) → P p → P least → P (max p least)
floor_keeps P p least x y =
    max_cases p least (P (max p least)) (λ h e. subst P (sym e) y) (λ h e. subst P (sym e) x)

min_price-OnGrid : (step : ℕ) → 1 ≤ step → OnGrid step (min_price step)
unfolding min_price
min_price-OnGrid step s = (1, ground arith)

snap-OnGrid : (step p : ℕ) → 1 ≤ step → OnGrid step (snap Side.buy step p)
unfolding snap
snap-OnGrid step p s =
    if_cases (OnGrid step) (ltb 1 step) ((p / step) * step) p
      (λ t. (p / step, mul_comm (p / step) step)) (λ t. (p, ground arith))

snap-Settled : (step p : ℕ) → 1 ≤ step → Settled Side.sell step (snap Side.sell step p)
unfolding snap
snap-Settled step p s =
    if_cases (Settled Side.sell step) (ltb 1 step) (sat_mul u128_max (div_ceil p step) step) p
      (λ t.
        min_cases (div_ceil p step * step) u128_max
          (Settled Side.sell step (sat_mul u128_max (div_ceil p step) step))
          (λ h e. inl (div_ceil p step, e ∙ mul_comm (div_ceil p step) step)) (λ h e. inr e))
      (λ t. inl (p, ground arith))

passive_price-Settled :
    (side : Side) (best : Option ℕ) (step target : ℕ)
    → 1 ≤ step
    → Settled side step (passive_price side best step target)
unfolding passive_price
passive_price-Settled Side.buy best step target s =
    floor_keeps (OnGrid step) _ _ (snap-OnGrid step (clamp Side.buy best step target) s)
      (min_price-OnGrid step s)
passive_price-Settled Side.sell best step target s =
    floor_keeps (Settled Side.sell step) _ _
      (snap-Settled step (clamp Side.sell best step target) s) (inl (min_price-OnGrid step s))

passive_price-pos :
    (side : Side) (best : Option ℕ) (step target : ℕ) → 1 ≤ passive_price side best step target
unfolding passive_price min_price
passive_price-pos side best step target = ground arith

passive_price-Beyond :
    (side : Side) (best : Option ℕ) (step target q : ℕ)
    → 1 ≤ step
    → TouchOnGrid step best
    → 1 ≤ q
    → OnGrid step q
    → Passive side best q
    → Beyond side target q
    → Beyond side (passive_price side best step target) q
unfolding passive_price
passive_price-Beyond side best step target q s g o k v w =
    floor-Beyond side step _ q s o k
      (snap-Beyond side step _ q s k (clamp-Beyond side best step target q g k v w))

calculate_pegged_price-reference :
    (reference_type : PegReferenceType) (offset : ℤ) (side : Side) (m : Market) (tick : Option ℕ)
    → (reference : ℕ) → reference_price reference_type m ≡ some reference
    → calculate_pegged_price reference_type offset side m tick
      ≡ unless_crossing side
          (touch side m)
          (passive_price side (touch side m) (tick_step tick) (raw_target reference offset))
unfolding calculate_pegged_price
calculate_pegged_price-reference reference_type offset side m tick reference e =
    rw (calculate_pegged_price, e) refl

-- A positive price that does not reach the touch, on the grid, at or on the passive side of the target,
-- and no price on the grid like it is closer to the target.
pub record IsClosest (side : Side) (best : Option ℕ) (step target p : ℕ) : Type 0 where
  pub positive : 1 ≤ p
  pub settled : Settled side step p
  pub passive : Passive side best p
  pub reaches : Reaches side step target p
  pub closest :
      (q : ℕ) → 1 ≤ q → OnGrid step q → Passive side best q → Beyond side target q → Beyond side p q

unless_crossing-IsClosest :
    (side : Side) (best : Option ℕ) (step target p : ℕ)
    → 1 ≤ step
    → TouchOnGrid step best
    → unless_crossing side best (passive_price side best step target) ≡ some p
    → IsClosest side best step target p
unless_crossing-IsClosest side best step target p s g c =
    let (same, passive) =
      unless_crossing-Passive side best (passive_price side best step target) p c in
    record {
      positive = subst (λ x. 1 ≤ x) same (passive_price-pos side best step target);
      settled = subst (Settled side step) same (passive_price-Settled side best step target s);
      passive = passive;
      reaches =
          subst (Reaches side step target) same (passive_price-Reaches side best step target s);
      closest = λ q o k v w.
          subst (λ x. Beyond side x q) same
            (passive_price-Beyond side best step target q s g o k v w);
    }

-- The price that a peg is given, with its touch on the grid of ticks, is positive, does not reach the
-- touch, and is a whole number of ticks unless a sell is cut off at the greatest price. It is at or on
-- the passive side of the reference with its offset, unless it is one tick or the greatest price; and no
-- price on the grid that also does not reach the touch, on that side, is closer.
pub calculate_pegged_price-IsClosest :
    (reference_type : PegReferenceType) (offset : ℤ) (side : Side) (m : Market) (tick : Option ℕ)
    → (reference p : ℕ) → reference_price reference_type m ≡ some reference
    → calculate_pegged_price reference_type offset side m tick ≡ some p
    → TouchOnGrid (tick_step tick) (touch side m)
    → IsClosest side (touch side m) (tick_step tick) (raw_target reference offset) p
calculate_pegged_price-IsClosest reference_type offset side m tick reference p e c g =
    unless_crossing-IsClosest side (touch side m) (tick_step tick) (raw_target reference offset) p
      (tick_step-pos tick) g
      (sym (calculate_pegged_price-reference reference_type offset side m tick reference e) ∙ c)

-- A peg whose reference price is there is given a price, when the ask leaves room for a tick below, or
-- when the bid is not the greatest price.
pub calculate_pegged_price-rests :
    (reference_type : PegReferenceType) (offset : ℤ) (side : Side) (m : Market) (tick : Option ℕ)
    → (reference : ℕ) → reference_price reference_type m ≡ some reference
    → Room side (touch side m) (tick_step tick)
    → (p : ℕ) × (calculate_pegged_price reference_type offset side m tick ≡ some p)
unfolding unless_crossing
calculate_pegged_price-rests reference_type offset side m tick reference e r =
    let priced = passive_price side (touch side m) (tick_step tick) (raw_target reference offset) in
    let clear : crosses side (touch side m) priced ≡ false =
      passive_price-rests side (touch side m) (tick_step tick) (raw_target reference offset)
        (tick_step-pos tick) r in
    (
      priced,
      calculate_pegged_price-reference reference_type offset side m tick reference e
          ∙ rw (unless_crossing, clear) refl,
    )
