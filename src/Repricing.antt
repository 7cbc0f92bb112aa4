-- ===== src/Repricing.antt =====
-- src/orderbook/repricing.rs: the prices of pegged orders and trailing stops; the test of a trailing
-- stop and its re-pricing at a market price are in src/orderbook/book.rs.
pub mod Grid
pub mod Pegged
pub mod Trailing
pub mod Passes
use order_book_rs.Prelude.{
  ℕ, suc, ◌+◌, ◌-◌, ◌*◌, ◌/◌, ◌%◌, ◌^◌, Bool, ◌&&◌, false, Option, none, some, ◌==◌, ltb, leb,
  if◌then◌else◌, min,
}
use order_book_rs.Prelude.Int.{ℤ, pos, negsuc}
use order_book_rs.Prelude.Words.{u128_max, sat_add, sat_mul}
use order_book_rs.Types.{Side, Order, OrderKind, PegReferenceType}
use Prim.Native.Nat.{max}

-- The four prices of the market that a peg may refer to.
pub record Market : Type 0 where
  pub best_bid : Option ℕ
  pub best_ask : Option ℕ
  pub mid_price : Option ℕ
  pub last_trade : Option ℕ

unfoldable pub reference_price : PegReferenceType → Market → Option ℕ
reference_price PegReferenceType.best_bid m = m.best_bid
reference_price PegReferenceType.best_ask m = m.best_ask
reference_price PegReferenceType.mid_price m = m.mid_price
reference_price PegReferenceType.last_trade m = m.last_trade

-- `(-offset) as u128` for the offset -(n + 1) of 64 bits: without overflow checks the least one is its
-- own negation, and the cast extends its sign.
unfoldable pub negated_offset : ℕ → ℕ
negated_offset n = if n == 2 ^ 63 - 1 then 2 ^ 128 - 2 ^ 63 else suc n

-- `reference ± offset`
unfoldable pub raw_target : ℕ → ℤ → ℕ
unfolding negated_offset
raw_target reference (pos n) = sat_add u128_max reference n
raw_target reference (negsuc n) = reference - negated_offset n

-- `tick_size.filter(|t| *t > 1).unwrap_or(1)`
unfoldable pub tick_step : Option ℕ → ℕ
tick_step none = 1
tick_step (some t) = if ltb 1 t then t else 1

-- The best price of the other side, which the price must not reach.
unfoldable pub touch : Side → Market → Option ℕ
touch Side.buy m = m.best_ask
touch Side.sell m = m.best_bid

-- One tick inside the touch.
unfoldable pub clamp : Side → Option ℕ → ℕ → ℕ → ℕ
clamp side none step price = price
clamp Side.buy (some ask) step price = min price (ask - step)
clamp Side.sell (some bid) step price = max price (sat_add u128_max bid step)

unfoldable pub div_ceil : ℕ → ℕ → ℕ
div_ceil a b = if a % b == 0 then a / b else a / b + 1

-- Onto the grid of ticks, down for a buy and up for a sell.
unfoldable pub snap : Side → ℕ → ℕ → ℕ
unfolding div_ceil
snap Side.buy step price = if ltb 1 step then (price / step) * step else price
snap Side.sell step price =
    if ltb 1 step then sat_mul u128_max (div_ceil price step) step else price

unfoldable pub min_price : ℕ → ℕ
min_price step = if ltb 1 step then step else 1

-- The final guard: whether a price would cross the touch.
unfoldable pub crosses : Side → Option ℕ → ℕ → Bool
crosses side none priced = false
crosses Side.buy (some ask) priced = leb ask priced
crosses Side.sell (some bid) priced = leb priced bid

unfoldable pub passive_price : Side → Option ℕ → ℕ → ℕ → ℕ
unfolding clamp snap min_price
passive_price side best step target =
    max (snap side step (clamp side best step target)) (min_price step)

-- No price for this cycle, rather than one that crosses.
unfoldable pub unless_crossing : Side → Option ℕ → ℕ → Option ℕ
unfolding crosses
unless_crossing side best priced = if crosses side best priced then none else some priced

unfoldable pub calculate_pegged_price : PegReferenceType → ℤ → Side → Market → Option ℕ → Option ℕ
unfolding reference_price raw_target tick_step touch passive_price unless_crossing
calculate_pegged_price reference_type offset side m tick_size =
    elim (reference_price reference_type m) [
      | none ↦ none
      | some reference ↦
          unless_crossing side (touch side m)
            (passive_price side (touch side m) (tick_step tick_size) (raw_target reference offset))
    ]

-- The new stop price and the new reference price, when the stop moves.
unfoldable pub calculate_trailing_stop_price : Side → ℕ → ℕ → ℕ → ℕ → Option (ℕ × ℕ)
calculate_trailing_stop_price Side.sell stop trail reference market =
    if ltb reference market && ltb stop (market - trail)
    then some (market - trail, market)
    else none
calculate_trailing_stop_price Side.buy stop trail reference market =
    if ltb market reference && ltb (sat_add u128_max market trail) stop
    then some (sat_add u128_max market trail, market)
    else none

-- The stop price after a re-pricing at a market price: the order keeps the reference price it came with.
unfoldable pub reprice_trailing : Side → ℕ → ℕ → ℕ → ℕ → ℕ
unfolding calculate_trailing_stop_price
reprice_trailing side trail reference stop market =
    elim (calculate_trailing_stop_price side stop trail reference market) [
      | none ↦ stop
      | some moved ↦ moved.0
    ]

-- The market falls to the stop price of a sell, or rises to that of a buy.
unfoldable pub stop_reached : Side → ℕ → ℕ → Bool
stop_reached Side.sell stop market = leb market stop
stop_reached Side.buy stop market = leb stop market

unfoldable pub should_trigger_trailing_stop : Order → ℕ → Bool
unfolding stop_reached
should_trigger_trailing_stop o market = of_kind o.kind
  where
    of_kind : OrderKind → Bool
    of_kind (OrderKind.trailing_stop quantity trail reference) = stop_reached o.side o.price market
    of_kind kind = false
