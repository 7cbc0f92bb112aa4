-- ===== src/Risk/Accounts.antt =====
-- The counters of every account agree with its tracked orders, after every hook.
pub mod Updates
pub mod Hooks
use order_book_rs.Prelude.{
  ℕ, ◌+◌, ◌-◌, ◌*◌, ◌^◌, ◌≤◌, ◌<◌, ◌≡◌, refl, Option, none, some, inl, inr, arith, ◌==◌,
  if◌then◌else◌, leb, leb→le, true, subst, if_cases, Option-cases,
}
use order_book_rs.Prelude.Maps.{
  lookup, insert, erase, IsDistinct, total, total-erase, erase-IsDistinct, insert-IsDistinct,
  lookup-insert,
}
use order_book_rs.Prelude.Words.{u128_max, sat_mul}
use order_book_rs.Risk.{
  clear, RiskState, RiskEntry, RiskCounters, counters_of, adjust, add_to, take_from,
  evict_if_zeroed, exposure, on_admission, on_fill, fill_entry, on_quantity_update, update_entry,
  on_cancel, cancel_entry, when_enabled, at_entry, RiskConfig,
}
use order_book_rs.Risk.Views.{counters_of-insert, counters_of-evict, counters_of-take}

-- What an entry counts for in an account.
abbrev pub count_in : ℕ → RiskEntry → ℕ
count_in a e = if e.account == a then 1 else 0

abbrev pub notional_in : ℕ → RiskEntry → ℕ
notional_in a e = if e.account == a then exposure e else 0

pub record IsBalanced (s : RiskState) : Type 0 where
  pub distinct : IsDistinct s.orders
  pub counted : (a : ℕ) → (counters_of a s.counters).open_count ≡ total (count_in a) s.orders
  pub notional :
      (a : ℕ) → (counters_of a s.counters).resting_notional ≡ total (notional_in a) s.orders

-- A cancel takes exactly what was booked for the order.
cancel_entry-IsBalanced :
    (s : RiskState) (id : ℕ) (e : RiskEntry)
    → lookup id s.orders ≡ some e
    → IsBalanced s
    → IsBalanced (cancel_entry s id e)
unfolding cancel_entry
cancel_entry-IsBalanced s id e found b = record {
  distinct = erase-IsDistinct id s.orders b.distinct;
  counted = λ a. ground (
    arith,
    b.counted a,
    total-erase (count_in a) id s.orders b.distinct,
    counters_of-evict e.account a (adjust e.account (take_from 1 (exposure e)) s.counters),
    counters_of-take e.account a 1 (exposure e) s.counters,
  );
  notional = λ a. ground (
    arith,
    b.notional a,
    total-erase (notional_in a) id s.orders b.distinct,
    counters_of-evict e.account a (adjust e.account (take_from 1 (exposure e)) s.counters),
    counters_of-take e.account a 1 (exposure e) s.counters,
  );
}

module _ (P : RiskState → Type 0) where
  when_enabled_cases :
      (o : Option RiskConfig) (s s' : RiskState) → P s → P s' → P (when_enabled o s s')
  when_enabled_cases none s s' h h' = h
  when_enabled_cases (some cfg) s s' h h' = h'

  at_entry_cases :
      (o : Option RiskEntry) (s : RiskState) (act : RiskEntry → RiskState)
      → P s
      → ((e : RiskEntry) → o ≡ some e → P (act e))
      → P (at_entry o s act)
  at_entry_cases none s act h k = h
  at_entry_cases (some e) s act h k = k e refl

-- A hook keeps what it keeps on each entry that it may find.
hook_cases :
    (s : RiskState) (id : ℕ) (act : RiskEntry → RiskState)
    → IsBalanced s
    → ((e : RiskEntry) → lookup id s.orders ≡ some e → IsBalanced (act e))
    → IsBalanced (when_enabled s.config s (at_entry (lookup id s.orders) s act))
hook_cases s id act b hit =
    when_enabled_cases IsBalanced s.config s _ b
      (at_entry_cases IsBalanced (lookup id s.orders) s act b hit)

pub clear-IsBalanced : (s : RiskState) → IsBalanced (clear s)
unfolding clear
clear-IsBalanced s = record { distinct = tt; counted = λ a. refl; notional = λ a. refl }

pub on_cancel-IsBalanced : (s : RiskState) (id : ℕ) → IsBalanced s → IsBalanced (on_cancel s id)
unfolding on_cancel
on_cancel-IsBalanced s id b =
    hook_cases s id (λ e. cancel_entry s id e) b λ e found. cancel_entry-IsBalanced s id e found b

-- Where the product fits, the booked amount splits as the quantity does.
exposure_split :
    (q f p : ℕ)
    → f ≤ q
    → q * p ≤ u128_max
    → sat_mul u128_max q p ≡ sat_mul u128_max f p + sat_mul u128_max (q - f) p
exposure_split q f p h k = grind arith

fill_part-IsBalanced :
    (s : RiskState) (id : ℕ) (e : RiskEntry) (filled : ℕ)
    → lookup id s.orders ≡ some e
    → filled ≤ e.remaining_qty
    → e.remaining_qty * e.price ≤ u128_max
    → IsBalanced s
    → IsBalanced (record s {
      orders = insert id (record e { remaining_qty = e.remaining_qty - filled }) s.orders;
      counters = adjust e.account (take_from 0 (sat_mul u128_max filled e.price)) s.counters;
    })
fill_part-IsBalanced s id e filled found le fits b = record {
  distinct =
      insert-IsDistinct id (record e { remaining_qty = e.remaining_qty - filled }) s.orders
        b.distinct;
  counted = λ a. ground (
    arith,
    b.counted a,
    total-erase (count_in a) id s.orders b.distinct,
    counters_of-take e.account a 0 (sat_mul u128_max filled e.price) s.counters,
  );
  notional = λ a. ground (
    arith,
    b.notional a,
    total-erase (notional_in a) id s.orders b.distinct,
    exposure_split e.remaining_qty filled e.price le fits,
    counters_of-take e.account a 0 (sat_mul u128_max filled e.price) s.counters,
  );
}

fill_entry-IsBalanced :
    (s : RiskState) (id : ℕ) (e : RiskEntry) (filled : ℕ)
    → lookup id s.orders ≡ some e
    → filled ≤ e.remaining_qty
    → e.remaining_qty * e.price ≤ u128_max
    → IsBalanced s
    → IsBalanced (fill_entry s id e filled)
unfolding fill_entry cancel_entry
fill_entry-IsBalanced s id e filled found le fits b =
    if_cases IsBalanced (e.remaining_qty - filled == 0) _ _
      (λ full.
        subst
          (λ f. IsBalanced (record s {
            orders = erase id s.orders;
            counters =
                evict_if_zeroed e.account
                  (adjust e.account (take_from 1 (sat_mul u128_max f e.price)) s.counters);
          }))
          (all_filled full) (cancel_entry-IsBalanced s id e found b))
      (λ part. fill_part-IsBalanced s id e filled found le fits b)
  where
    all_filled : (e.remaining_qty - filled == 0) ≡ true → e.remaining_qty ≡ filled
    all_filled full = ground arith

-- A fill releases the filled part of the booked amount, and the order's count with its last unit.
pub on_fill-IsBalanced :
    (s : RiskState) (id filled : ℕ)
    → ((e : RiskEntry)
        → lookup id s.orders ≡ some e
        → (filled ≤ e.remaining_qty) × (e.remaining_qty * e.price ≤ u128_max))
    → IsBalanced s
    → IsBalanced (on_fill s id filled)
unfolding on_fill
on_fill-IsBalanced s id filled fits b =
    hook_cases s id (λ e. fill_entry s id e filled) b
      λ e found. fill_entry-IsBalanced s id e filled found (fits e found).0 (fits e found).1 b

-- An admission books a new order; the account's counters must not wrap.
pub on_admission-IsBalanced :
    (s : RiskState) (id account price qty : ℕ)
    → lookup id s.orders ≡ none
    → (counters_of account s.counters).open_count + 1 < 2 ^ 64
    → (counters_of account s.counters).resting_notional + sat_mul u128_max qty price < 2 ^ 128
    → IsBalanced s
    → IsBalanced (on_admission s id account price qty)
unfolding on_admission
on_admission-IsBalanced s id account price qty fresh room wide b =
    when_enabled_cases IsBalanced s.config s _ b (record {
      distinct =
          insert-IsDistinct id (record { account = account; price = price; remaining_qty = qty })
            s.orders b.distinct;
      counted = λ a. ground (
        arith,
        b.counted a,
        b.counted account,
        total-erase (count_in a) id s.orders b.distinct,
        counters_of-insert account a
            (add_to 1 (sat_mul u128_max qty price) (counters_of account s.counters)) s.counters,
      );
      notional = λ a. ground (
        arith,
        b.notional a,
        b.notional account,
        total-erase (notional_in a) id s.orders b.distinct,
        counters_of-insert account a
            (add_to 1 (sat_mul u128_max qty price) (counters_of account s.counters)) s.counters,
      );
    })
