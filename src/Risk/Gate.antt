-- ===== src/Risk/Gate.antt =====
-- What the admission checks guarantee.
use order_book_rs.Prelude.{ℕ, ◌*◌, ◌^◌, ◌≤◌, ◌<◌, ◌≡◌, ◌↔◌, ◌⊎◌, Option, none, some, arith}
use order_book_rs.Prelude.Maps.{lookup, total-erase}
use order_book_rs.Prelude.Words.{u128_max}
use order_book_rs.Prelude.Result.{ok}
use order_book_rs.Risk.{
  RiskState, RiskConfig, RiskEntry, counters_of, adjust, take_from, exposure, check_band,
  check_price_band, check_open_orders, check_notional, check_limit_admission,
  check_modify_admission, check_projected, on_admission, on_cancel, cancel_entry, abs_diff,
}
use order_book_rs.Risk.Views.{counters_of-evict, counters_of-take}
use order_book_rs.Risk.Accounts.{IsBalanced, count_in}

-- The band accepts exactly the prices within it: the deviation, in ten-thousandths of the reference,
-- is at most the limit, where neither product saturates.
pub check_band_iff :
    (bps price reference : ℕ)
    → abs_diff price reference * 10_000 ≤ u128_max
    → bps * reference ≤ u128_max
    → (check_band bps price reference ≡ ok tt)
      ↔ ((reference ≡ 0) ⊎ (abs_diff price reference * 10_000 ≤ bps * reference))
unfolding check_band
check_band_iff bps price reference h k = (λ e. ground arith, λ e. ground arith)

-- With both limits configured, within their words, a passed check and the admission that follows leave
-- the account within both.
pub admission_within_limits :
    (s : RiskState) (cfg : RiskConfig) (id account price qty : ℕ) (reference : Option ℕ)
    {orders notional : ℕ}
    → s.config ≡ some cfg
    → cfg.max_open_orders_per_account ≡ some orders
    → cfg.max_notional_per_account ≡ some notional
    → orders < 2 ^ 64
    → notional < u128_max
    → (check_limit_admission s account price qty reference).0 ≡ ok tt
    → let c = counters_of account (on_admission s id account price qty).counters in
      (c.open_count ≤ orders) × (c.resting_notional ≤ notional)
unfolding check_limit_admission check_open_orders check_notional on_admission
admission_within_limits s cfg id account price qty reference enabled o n wo wn passed = ground arith

-- The counters of an account after a tracked order of it is cancelled.
counters_of-on_cancel :
    (s : RiskState) (cfg : RiskConfig) (id : ℕ) (e : RiskEntry)
    → s.config ≡ some cfg
    → lookup id s.orders ≡ some e
    → counters_of e.account (on_cancel s id).counters
      ≡ take_from 1 (exposure e) (counters_of e.account s.counters)
unfolding on_cancel cancel_entry
counters_of-on_cancel s cfg id e enabled found = ground (
  arith,
  counters_of-evict e.account e.account (adjust e.account (take_from 1 (exposure e)) s.counters),
  counters_of-take e.account e.account 1 (exposure e) s.counters,
)

pub on_cancel-config : (s : RiskState) (id : ℕ) → (on_cancel s id).config ≡ s.config
unfolding on_cancel cancel_entry
on_cancel-config s id = ground arith

-- The account of a tracked order counts it.
tracked_counts :
    (s : RiskState) (id : ℕ) (e : RiskEntry)
    → IsBalanced s
    → lookup id s.orders ≡ some e
    → 0 < (counters_of e.account s.counters).open_count
tracked_counts s id e b found =
    ground (arith, b.counted e.account, total-erase (count_in e.account) id s.orders b.distinct)

-- A count within a limit, if there is one.
abbrev pub IsWithin : Option ℕ → ℕ → Type 0
IsWithin none count = Unit
IsWithin (some limit) count = count ≤ limit

-- The guard of a modify predicts the admission check that follows its cancel: on balanced counters with a
-- configuration, for a tracked order whose account is within its order limit, a modify that the guard
-- passes is passed by the admission check after the cancel of the original, at the same reference price.
pub modify_predicts_admission :
    (s : RiskState) (cfg : RiskConfig) (id : ℕ) (e : RiskEntry) (price qty : ℕ)
    (reference : Option ℕ)
    → IsBalanced s
    → s.config ≡ some cfg
    → lookup id s.orders ≡ some e
    → IsWithin cfg.max_open_orders_per_account (counters_of e.account s.counters).open_count
    → (check_modify_admission s id e.account price qty reference).0 ≡ ok tt
    → (check_limit_admission (on_cancel s id) e.account price qty reference).0 ≡ ok tt
unfolding check_modify_admission check_limit_admission check_open_orders check_notional
    check_projected check_price_band
modify_predicts_admission s cfg id e price qty reference b enabled found within passed = ground (
  arith,
  on_cancel-config s id,
  tracked_counts s id e b found,
  counters_of-on_cancel s cfg id e enabled found,
)
