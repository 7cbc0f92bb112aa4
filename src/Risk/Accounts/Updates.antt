-- ===== src/Risk/Accounts/Updates.antt =====
-- The counters of every account agree with its tracked orders, after an update of a quantity.
use order_book_rs.Prelude.{
  ℕ, ◌+◌, ◌-◌, ◌*◌, ◌^◌, ◌≤◌, ◌<◌, ◌≡◌, some, inl, inr, arith, leb, leb→le, if_cases, Option-cases,
}
use order_book_rs.Prelude.Maps.{lookup, insert, total-erase, insert-IsDistinct, lookup-insert}
use order_book_rs.Prelude.Words.{u128_max, sat_mul}
use order_book_rs.Risk.{
  RiskState, RiskEntry, RiskCounters, counters_of, adjust, add_to, take_from, on_quantity_update,
  update_entry,
}
use order_book_rs.Risk.Views.{counters_of-take}
use order_book_rs.Risk.Accounts.{IsBalanced, count_in, notional_in, hook_cases, exposure_split}

-- An update of the quantity rebooks the order: in two lemmas, as the quantity grows or shrinks.
module _ (s : RiskState) (id : ℕ) (e : RiskEntry) (new : ℕ) (found : lookup id s.orders ≡ some e)
    (fits : (new * e.price ≤ u128_max) × (e.remaining_qty * e.price ≤ u128_max))
    (wide : (counters_of e.account s.counters).resting_notional + new * e.price < 2 ^ 128)
    (room : (counters_of e.account s.counters).open_count < 2 ^ 64) (b : IsBalanced s) where
  abbrev updated : RiskEntry
  updated = record e { remaining_qty = new }

  -- The account of a tracked order has counters.
  tracked : (c : RiskCounters) × (lookup e.account s.counters ≡ some c)
  tracked = elim (Option-cases (lookup e.account s.counters)) [
    | inl absent ↦ absurd (
        ground
          (arith, b.counted e.account, total-erase (count_in e.account) id s.orders b.distinct))
    | inr present ↦ present
  ]

  grow-IsBalanced :
      e.remaining_qty ≤ new
      → IsBalanced (record s {
        orders = insert id updated s.orders;
        counters =
            adjust e.account
              (add_to 0 (sat_mul u128_max (new - e.remaining_qty) e.price))
              s.counters;
      })
  grow-IsBalanced le = record {
    distinct = insert-IsDistinct id updated s.orders b.distinct;
    counted = λ a. ground (
      arith,
      tracked,
      b.counted a,
      total-erase (count_in a) id s.orders b.distinct,
      lookup-insert e.account a
          (add_to 0 (sat_mul u128_max (new - e.remaining_qty) e.price) tracked.0) s.counters,
    );
    notional = λ a. ground (
      arith,
      tracked,
      b.notional a,
      total-erase (notional_in a) id s.orders b.distinct,
      exposure_split new e.remaining_qty e.price le fits.0,
      lookup-insert e.account a
          (add_to 0 (sat_mul u128_max (new - e.remaining_qty) e.price) tracked.0) s.counters,
    );
  }

  shrink-IsBalanced :
      new ≤ e.remaining_qty
      → IsBalanced (record s {
        orders = insert id updated s.orders;
        counters =
            adjust e.account
              (take_from 0 (sat_mul u128_max (e.remaining_qty - new) e.price))
              s.counters;
      })
  shrink-IsBalanced le = record {
    distinct = insert-IsDistinct id updated s.orders b.distinct;
    counted = λ a. ground (
      arith,
      b.counted a,
      total-erase (count_in a) id s.orders b.distinct,
      counters_of-take e.account a 0 (sat_mul u128_max (e.remaining_qty - new) e.price) s.counters,
    );
    notional = λ a. ground (
      arith,
      b.notional a,
      total-erase (notional_in a) id s.orders b.distinct,
      exposure_split e.remaining_qty new e.price le fits.1,
      counters_of-take e.account a 0 (sat_mul u128_max (e.remaining_qty - new) e.price) s.counters,
    );
  }

  update_entry-IsBalanced : IsBalanced (update_entry s id e new)
  unfolding update_entry
  update_entry-IsBalanced =
      if_cases (λ m. IsBalanced (record s { orders = insert id updated s.orders; counters = m }))
        (leb e.remaining_qty new) _ _ (λ up. grow-IsBalanced (leb→le _ _ up))
        (λ down. shrink-IsBalanced (ground arith))

pub on_quantity_update-IsBalanced :
    (s : RiskState) (id new : ℕ)
    → ((e : RiskEntry)
        → lookup id s.orders ≡ some e
        → ((new * e.price ≤ u128_max) × (e.remaining_qty * e.price ≤ u128_max))
          × ((counters_of e.account s.counters).resting_notional + new * e.price < 2 ^ 128)
          × ((counters_of e.account s.counters).open_count < 2 ^ 64))
    → IsBalanced s
    → IsBalanced (on_quantity_update s id new)
unfolding on_quantity_update
on_quantity_update-IsBalanced s id new fits b =
    hook_cases s id (λ e. update_entry s id e new) b
      λ e found. let h = fits e found in update_entry-IsBalanced s id e new found h.0 h.1 h.2 b
