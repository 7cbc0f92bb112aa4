-- ===== src/Risk/Accounts/Hooks.antt =====
-- The hooks as reports, and what every sound report keeps.
use order_book_rs.Prelude.{ℕ, ◌+◌, ◌*◌, ◌^◌, ◌≤◌, ◌<◌, ◌≡◌, none, some}
use order_book_rs.Prelude.Maps.{lookup}
use order_book_rs.Prelude.Words.{u128_max, sat_mul}
use order_book_rs.Risk.{
  RiskState, RiskEntry, counters_of, on_admission, on_fill, on_quantity_update, on_cancel,
}
use order_book_rs.Risk.Accounts.{
  IsBalanced, on_cancel-IsBalanced, on_fill-IsBalanced, on_admission-IsBalanced,
}
use order_book_rs.Risk.Accounts.Updates.{on_quantity_update-IsBalanced}

-- What the engine reports to the risk layer.
pub data Hook : Type 0 where
  admitted : ℕ → ℕ → ℕ → ℕ → Hook
  filled requantified : ℕ → ℕ → Hook
  cancelled : ℕ → Hook

pub apply : RiskState → Hook → RiskState
apply s (admitted id account price qty) = on_admission s id account price qty
apply s (filled id qty) = on_fill s id qty
apply s (requantified id qty) = on_quantity_update s id qty
apply s (cancelled id) = on_cancel s id

-- What a report must meet: a new id on admission, no more filled than rests, and amounts and counts
-- that fit their words.
abbrev pub IsSound : RiskState → Hook → Type 0
IsSound s (admitted id account price qty) =
    (lookup id s.orders ≡ none)
    × ((counters_of account s.counters).open_count + 1 < 2 ^ 64)
    × ((counters_of account s.counters).resting_notional + sat_mul u128_max qty price < 2 ^ 128)
IsSound s (filled id qty) =
    (e : RiskEntry)
    → lookup id s.orders ≡ some e
    → (qty ≤ e.remaining_qty) × (e.remaining_qty * e.price ≤ u128_max)
IsSound s (requantified id qty) =
    (e : RiskEntry)
    → lookup id s.orders ≡ some e
    → ((qty * e.price ≤ u128_max) × (e.remaining_qty * e.price ≤ u128_max))
      × ((counters_of e.account s.counters).resting_notional + qty * e.price < 2 ^ 128)
      × ((counters_of e.account s.counters).open_count < 2 ^ 64)
IsSound s (cancelled id) = Unit

-- Each sound report keeps the counters of every account equal to the count and the booked amounts of
-- its tracked orders.
pub apply-IsBalanced :
    (s : RiskState) (h : Hook) → IsSound s h → IsBalanced s → IsBalanced (apply s h)
unfolding apply
apply-IsBalanced s (admitted id account price qty) h b =
    on_admission-IsBalanced s id account price qty h.0 h.1 h.2 b
apply-IsBalanced s (filled id qty) h b = on_fill-IsBalanced s id qty h b
apply-IsBalanced s (requantified id qty) h b = on_quantity_update-IsBalanced s id qty h b
apply-IsBalanced s (cancelled id) h b = on_cancel-IsBalanced s id b
