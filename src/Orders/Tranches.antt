-- ===== src/Orders/Tranches.antt =====
-- The residual of an order is split over its tranches without gain or loss.
use order_book_rs.Prelude.{ℕ, ◌+◌, ◌≤◌, ◌≡◌, Bool, Option, some, arith}
use order_book_rs.Prelude.Words.{u64_max}
use order_book_rs.Types.{OrderKind}
use order_book_rs.Orders.{
  total_quantity, checked_total_quantity, reduce_reserve_to_total, set_total_remaining,
}

reduce_reserve_to_total-total :
    (visible hidden : ℕ) (amount : Option ℕ) (auto : Bool) (new : ℕ)
    → visible + hidden ≤ u64_max
    → new ≤ visible + hidden
    → total_quantity (reduce_reserve_to_total visible hidden amount auto new) ≡ new
unfolding reduce_reserve_to_total total_quantity
reduce_reserve_to_total-total visible hidden amount auto new fits le = ground arith

-- Resting a residual that is no more than a representable order's total gives an order whose total
-- is exactly the residual, for every kind of order: no tranche gains or loses.
pub set_total_remaining-total :
    (kind : OrderKind) (total remaining : ℕ)
    → checked_total_quantity kind ≡ some total
    → remaining ≤ total
    → total ≤ u64_max
    → (total_quantity kind ≡ total)
      × (total_quantity (set_total_remaining kind remaining) ≡ remaining)
unfolding set_total_remaining total_quantity checked_total_quantity
set_total_remaining-total (OrderKind.standard q) total r e le fits = ground arith
set_total_remaining-total (OrderKind.post_only q) total r e le fits = ground arith
set_total_remaining-total (OrderKind.trailing_stop q trail reference) total r e le fits =
    ground arith
set_total_remaining-total (OrderKind.pegged q reference offset) total r e le fits = ground arith
set_total_remaining-total (OrderKind.market_to_limit q) total r e le fits = ground arith
set_total_remaining-total (OrderKind.iceberg visible hidden) total r e le fits = ground arith
set_total_remaining-total (OrderKind.reserve visible hidden amount auto) total r e le fits =
    ground (arith, reduce_reserve_to_total-total visible hidden amount auto r)
