-- ===== src/Orders.antt =====
-- `OrderQuantity` of src/orderbook/modifications.rs: the quantities of an order by its kind, and what
-- a new total makes of them.
pub mod Tranches
use order_book_rs.Prelude.{
  ℕ, ◌+◌, ◌-◌, Bool, true, false, ◌&&◌, Option, none, some, ◌==◌, ltb, leb, if◌then◌else◌, min,
}
use order_book_rs.Prelude.Words.{u64_max, sat_add}
use order_book_rs.Types.{OrderKind}

unfoldable pub quantity : OrderKind → ℕ
quantity (OrderKind.standard q) = q
quantity (OrderKind.post_only q) = q
quantity (OrderKind.trailing_stop q trail reference) = q
quantity (OrderKind.pegged q reference offset) = q
quantity (OrderKind.market_to_limit q) = q
quantity (OrderKind.iceberg visible hidden) = visible
quantity (OrderKind.reserve visible hidden amount auto) = visible

unfoldable pub total_quantity : OrderKind → ℕ
total_quantity (OrderKind.standard q) = q
total_quantity (OrderKind.post_only q) = q
total_quantity (OrderKind.trailing_stop q trail reference) = q
total_quantity (OrderKind.pegged q reference offset) = q
total_quantity (OrderKind.market_to_limit q) = q
total_quantity (OrderKind.iceberg visible hidden) = sat_add u64_max visible hidden
total_quantity (OrderKind.reserve visible hidden amount auto) = sat_add u64_max visible hidden

-- `checked_add` of a `u64`.
abbrev checked_add : ℕ → ℕ → Option ℕ
checked_add a b = if leb (a + b) u64_max then some (a + b) else none

unfoldable pub checked_total_quantity : OrderKind → Option ℕ
unfolding total_quantity
checked_total_quantity (OrderKind.iceberg visible hidden) = checked_add visible hidden
checked_total_quantity (OrderKind.reserve visible hidden amount auto) = checked_add visible hidden
checked_total_quantity kind = some (total_quantity kind)

-- `replenish_amount.map(..).unwrap_or(0)`
abbrev amount_or_zero : Option ℕ → ℕ
amount_or_zero none = 0
amount_or_zero (some q) = q

-- `reduce_reserve_to_total`: the visible tranche is reduced first, and refreshed if it is used up.
unfoldable pub reduce_reserve_to_total : ℕ → ℕ → Option ℕ → Bool → ℕ → OrderKind
reduce_reserve_to_total visible hidden amount auto new_total =
    let to_reduce = sat_add u64_max visible hidden - new_total in
    let from_visible = min to_reduce visible in
    let visible' = visible - from_visible in
    let hidden' = hidden - (to_reduce - from_visible) in
    let refresh = min (amount_or_zero amount) hidden' in
    if visible' == 0 && ltb 0 hidden'
    then OrderKind.reserve refresh (hidden' - refresh) amount auto
    else OrderKind.reserve visible' hidden' amount auto

unfoldable pub set_quantity : OrderKind → ℕ → OrderKind
unfolding reduce_reserve_to_total
set_quantity (OrderKind.standard q) new = OrderKind.standard new
set_quantity (OrderKind.post_only q) new = OrderKind.post_only new
set_quantity (OrderKind.trailing_stop q trail reference) new =
    OrderKind.trailing_stop new trail reference
set_quantity (OrderKind.pegged q reference offset) new = OrderKind.pegged new reference offset
set_quantity (OrderKind.market_to_limit q) new = OrderKind.market_to_limit new
set_quantity (OrderKind.iceberg visible hidden) new = OrderKind.iceberg new hidden
set_quantity (OrderKind.reserve visible hidden amount auto) new =
    reduce_reserve_to_total visible hidden amount auto new

unfoldable pub set_total_remaining : OrderKind → ℕ → OrderKind
unfolding reduce_reserve_to_total
set_total_remaining (OrderKind.standard q) new = OrderKind.standard new
set_total_remaining (OrderKind.post_only q) new = OrderKind.post_only new
set_total_remaining (OrderKind.trailing_stop q trail reference) new =
    OrderKind.trailing_stop new trail reference
set_total_remaining (OrderKind.pegged q reference offset) new =
    OrderKind.pegged new reference offset
set_total_remaining (OrderKind.market_to_limit q) new = OrderKind.market_to_limit new
set_total_remaining (OrderKind.iceberg visible hidden) new =
    OrderKind.iceberg (min visible new) (new - min visible new)
set_total_remaining (OrderKind.reserve visible hidden amount auto) new =
    reduce_reserve_to_total visible hidden amount auto new
