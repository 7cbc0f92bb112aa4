-- ===== src/Matching/Budget.antt =====
-- `MatchMode` and `StopCondition` of src/orderbook/matching.rs: the budget of a match, in base
-- quantity or in quote notional.
use native.Mathlib.Nat.{div-add-mod, mul-mod_right}
use order_book_rs.Prelude.{
  ℕ, zero, suc, ◌+◌, ◌-◌, ◌*◌, ◌/◌, ◌%◌, ◌≤◌, ◌<◌, ◌≡◌, Bool, ◌||◌, Option, none, arith, ◌==◌,
  if◌then◌else◌, ltb, leb, min,
}
use order_book_rs.Prelude.Words.{u64_max, u128_max, sat_mul}

pub data MatchMode : Type 0 where
  base_qty : ℕ → Option ℕ → MatchMode
  quote_amount : ℕ → MatchMode

unfoldable pub limit_price : MatchMode → Option ℕ
limit_price (MatchMode.base_qty quantity limit) = limit
limit_price (MatchMode.quote_amount amount) = none

unfoldable pub initial_match_quantity : MatchMode → ℕ
initial_match_quantity (MatchMode.base_qty quantity limit) = quantity
initial_match_quantity (MatchMode.quote_amount amount) = u64_max

pub data StopCondition : Type 0 where
  base_qty quote_amount : ℕ → StopCondition

unfoldable pub from_mode : MatchMode → StopCondition
from_mode (MatchMode.base_qty quantity limit) = StopCondition.base_qty quantity
from_mode (MatchMode.quote_amount amount) = StopCondition.quote_amount amount

-- `if lot <= 1 { raw } else { raw - (raw % lot) }`
unfoldable pub round_lot : ℕ → ℕ → ℕ
round_lot raw lot = if leb lot 1 then raw else raw - raw % lot

unfoldable pub level_qty_cap : StopCondition → ℕ → ℕ → ℕ
unfolding round_lot
level_qty_cap (StopCondition.base_qty remaining) price lot = round_lot remaining lot
level_qty_cap (StopCondition.quote_amount remaining) price lot =
    if price == 0 || ltb remaining price then 0 else round_lot (min (remaining / price) u64_max) lot

unfoldable pub consume : StopCondition → ℕ → ℕ → StopCondition
consume (StopCondition.base_qty remaining) executed price =
    StopCondition.base_qty (remaining - executed)
consume (StopCondition.quote_amount remaining) executed price =
    StopCondition.quote_amount (remaining - sat_mul u128_max price executed)

unfoldable pub is_done : StopCondition → Bool
is_done (StopCondition.base_qty remaining) = remaining == 0
is_done (StopCondition.quote_amount remaining) = remaining == 0

-- The budget that is left, in its own unit, and what an execution costs in that unit.
abbrev pub left : StopCondition → ℕ
left (StopCondition.base_qty remaining) = remaining
left (StopCondition.quote_amount remaining) = remaining

abbrev pub cost : StopCondition → ℕ → ℕ → ℕ
cost (StopCondition.base_qty remaining) executed price = executed
cost (StopCondition.quote_amount remaining) executed price = price * executed

pub round_lot-le : (raw lot : ℕ) → round_lot raw lot ≤ raw
unfolding round_lot
round_lot-le raw lot = ground arith

round_lot-lots : (raw lot : ℕ) → 1 < lot → round_lot raw lot % lot ≡ 0
unfolding round_lot
round_lot-lots raw lot h =
    let e : round_lot raw lot ≡ lot * (raw / lot) = ground (arith, div-add-mod raw lot) in
    rw e (mul-mod_right lot (raw / lot))

div_affordable : (r p e : ℕ) → e ≤ r / p → p * e ≤ r
div_affordable r zero e h = grind arith
div_affordable r (suc p) e h = grind arith

-- A quantity within the cap of a level is affordable in the unit of the budget, and is deducted from
-- it exactly, for a budget of 128 bits.
pub level_qty_cap_affordable :
    (stop : StopCondition) (price lot executed : ℕ)
    → left stop ≤ u128_max
    → executed ≤ level_qty_cap stop price lot
    → (cost stop executed price ≤ left stop)
      × (left (consume stop executed price) + cost stop executed price ≡ left stop)
unfolding level_qty_cap consume
level_qty_cap_affordable (StopCondition.base_qty r) price lot executed b h =
    ground (arith, round_lot-le r lot)
level_qty_cap_affordable (StopCondition.quote_amount r) price lot executed b h =
    ground (arith, round_lot-le (min (r / price) u64_max) lot, div_affordable r price executed)

-- The cap of a level is a whole number of lots, for a lot of more than one unit.
pub level_qty_cap_lots :
    (stop : StopCondition) (price lot : ℕ) → 1 < lot → level_qty_cap stop price lot % lot ≡ 0
unfolding level_qty_cap
level_qty_cap_lots (StopCondition.base_qty r) price lot h = round_lot-lots r lot h
level_qty_cap_lots (StopCondition.quote_amount r) price lot h =
    ground (arith, round_lot-lots (min (r / price) u64_max) lot)
