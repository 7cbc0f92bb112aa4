-- ===== src/Risk.antt =====
-- src/orderbook/risk.rs: the pre-trade risk layer. Per-account counters and per-order entries are
-- maps; a call that changes them returns the new state. Counters are `u64` and `u128`: an addition
-- wraps, and a subtraction stops at zero.
pub mod Views
pub mod Accounts
pub mod Gate
pub mod Coverage
use order_book_rs.Prelude.{
  ℕ, ◌+◌, ◌-◌, ◌*◌, ◌/◌, ◌%◌, ◌^◌, ◌≤◌, Bool, true, false, ◌&&◌, Option, none, some, List, [], ◌∷◌,
  leb, ltb, ◌==◌, if◌then◌else◌,
}
use order_book_rs.Prelude.Maps.{Map, lookup, insert, erase}
use order_book_rs.Prelude.Words.{u32_max, u128_max, sat_add, sat_mul}
use order_book_rs.Prelude.Result.{Result, ok, err, ◌>>=◌, ◌>>◌, guard}
use order_book_rs.Error.{BookError}

pub data ReferencePriceSource : Type 0 where
  last_trade mid : ReferencePriceSource
  fixed_price : ℕ → ReferencePriceSource

pub record RiskConfig : Type 0 where
  pub max_open_orders_per_account : Option ℕ
  pub max_notional_per_account : Option ℕ
  pub price_band_bps : Option ℕ
  pub reference_price : Option ReferencePriceSource

pub record RiskCounters : Type 0 where
  pub open_count : ℕ
  pub resting_notional : ℕ

pub record RiskEntry : Type 0 where
  pub account : ℕ
  pub price : ℕ
  pub remaining_qty : ℕ

pub record RiskState : Type 0 where
  pub config : Option RiskConfig
  pub counters : Map RiskCounters
  pub orders : Map RiskEntry
  pub warned_no_reference : Bool

-- `RiskCounters::default()`
abbrev pub no_counters : RiskCounters
no_counters = record { open_count = 0; resting_notional = 0 }

-- `RiskState::new`
unfoldable pub new : RiskState
new = record { config = none; counters = []; orders = []; warned_no_reference = false }

pub set_config : RiskState → RiskConfig → RiskState
set_config s cfg = record s { config = some cfg; warned_no_reference = false }

pub disable : RiskState → RiskState
disable s = record s { config = none }

pub clear : RiskState → RiskState
clear s = record s { orders = []; counters = [] }

-- `counters.get(&account).map(..).unwrap_or(0)`, both fields at once.
abbrev pub counters_of : ℕ → Map RiskCounters → RiskCounters
counters_of a m = elim (lookup a m) [ none ↦ no_counters | some c ↦ c ]

-- `price.abs_diff(reference)`
abbrev pub abs_diff : ℕ → ℕ → ℕ
abs_diff a b = if leb b a then a - b else b - a

-- The band against a reference that is there.
pub check_band : ℕ → ℕ → ℕ → Result BookError (Unit {0})
check_band bps_limit price reference =
    let scaled_diff = sat_mul u128_max (abs_diff price reference) 10_000 in
    let band = sat_mul u128_max bps_limit reference in
    if ltb 0 reference && ltb band scaled_diff
    then err (
        BookError.risk_price_band price reference
          (if ltb u32_max (scaled_diff / reference) then u32_max else scaled_diff / reference)
          bps_limit)
    else ok tt

-- `check_price_band`: the verdict, and the state with its warning latch.
unfoldable pub check_price_band :
    RiskState → RiskConfig → ℕ → Option ℕ → Result BookError (Unit {0}) × RiskState
check_price_band s cfg price reference = elim cfg.price_band_bps [
  | none ↦ (ok tt, s)
  | some bps_limit ↦ elim reference [
    | some r ↦ (check_band bps_limit price r, s)
    | none ↦ elim cfg.reference_price [
      | none ↦ (ok tt, s)
      | some _ ↦ (ok tt, record s { warned_no_reference = true })
    ]
  ]
]

-- Gate 1: the account's open orders.
unfoldable pub check_open_orders : RiskState → RiskConfig → ℕ → Result BookError (Unit {0})
check_open_orders s cfg account = elim cfg.max_open_orders_per_account [
  | none ↦ ok tt
  | some limit ↦
      let current = (counters_of account s.counters).open_count in
      guard (ltb current limit) (BookError.risk_max_open_orders account current limit)
]

-- Gate 2: the account's notional.
unfoldable pub check_notional : RiskState → RiskConfig → ℕ → ℕ → ℕ → Result BookError (Unit {0})
check_notional s cfg account price quantity = elim cfg.max_notional_per_account [
  | none ↦ ok tt
  | some limit ↦
      let current = (counters_of account s.counters).resting_notional in
      let attempted = sat_mul u128_max quantity price in
      guard (leb (sat_add u128_max current attempted) limit)
        (BookError.risk_max_notional account current attempted limit)
]

-- After two gates, the third with its latch: an error of an earlier gate leaves the state alone.
abbrev pub then_band :
    Result BookError (Unit {0})
    → RiskState
    → Result BookError (Unit {0}) × RiskState
    → Result BookError (Unit {0}) × RiskState
then_band (ok _) s band = band
then_band (err e) s band = (err e, s)

-- `check_limit_admission`
unfoldable pub check_limit_admission :
    RiskState → ℕ → ℕ → ℕ → Option ℕ → Result BookError (Unit {0}) × RiskState
check_limit_admission s account price quantity reference = elim s.config [
  | none ↦ (ok tt, s)
  | some cfg ↦
      then_band (check_open_orders s cfg account >> check_notional s cfg account price quantity) s
        (check_price_band s cfg price reference)
]

-- The amount booked for an order.
abbrev pub exposure : RiskEntry → ℕ
exposure e = sat_mul u128_max e.remaining_qty e.price

-- The notional gate of a modify: the original's contribution is swapped for the new one.
unfoldable pub check_projected :
    RiskState → RiskConfig → RiskEntry → ℕ → ℕ → ℕ → Result BookError (Unit {0})
check_projected s cfg entry account new_price new_qty = elim cfg.max_notional_per_account [
  | none ↦ ok tt
  | some limit ↦
      let current = (counters_of account s.counters).resting_notional in
      let new_contribution = sat_mul u128_max new_qty new_price in
      guard (leb (sat_add u128_max (current - exposure entry) new_contribution) limit)
        (BookError.risk_max_notional account current new_contribution limit)
]

-- `check_modify_admission`
unfoldable pub check_modify_admission :
    RiskState → ℕ → ℕ → ℕ → ℕ → Option ℕ → Result BookError (Unit {0}) × RiskState
check_modify_admission s order_id account new_price new_qty reference = elim s.config [
  | none ↦ (ok tt, s)
  | some cfg ↦ elim (lookup order_id s.orders) [
    | none ↦ check_limit_admission s account new_price new_qty reference
    | some entry ↦
        then_band (check_projected s cfg entry account new_price new_qty) s
          (check_price_band s cfg new_price reference)
  ]
]

-- `check_market_admission`
unfoldable pub check_market_admission : RiskState → ℕ → Result BookError (Unit {0})
check_market_admission s account = ok tt

-- `counters.get(&account)`, and the update of what it finds.
abbrev pub adjust : ℕ → (RiskCounters → RiskCounters) → Map RiskCounters → Map RiskCounters
adjust a f m = elim (lookup a m) [ none ↦ m | some c ↦ insert a (f c) m ]

-- `fetch_add` on each counter.
abbrev pub add_to : ℕ → ℕ → RiskCounters → RiskCounters
add_to count notional c = record {
  open_count = (c.open_count + count) % 2 ^ 64;
  resting_notional = (c.resting_notional + notional) % 2 ^ 128;
}

-- `saturating_sub_u64` and `saturating_sub_u128`.
abbrev pub take_from : ℕ → ℕ → RiskCounters → RiskCounters
take_from count notional c = record {
  open_count = c.open_count - count;
  resting_notional = c.resting_notional - notional;
}

-- `evict_if_zeroed`
pub evict_if_zeroed : ℕ → Map RiskCounters → Map RiskCounters
evict_if_zeroed a m = elim (lookup a m) [
  | none ↦ m
  | some c ↦ if c.open_count == 0 && c.resting_notional == 0 then erase a m else m
]

-- What a hook does: nothing unless a configuration is installed.
abbrev pub when_enabled : Option RiskConfig → RiskState → RiskState → RiskState
when_enabled none s s' = s
when_enabled (some cfg) s s' = s'

-- What a hook does on the entry that it looks up, if there is one.
abbrev pub at_entry : Option RiskEntry → RiskState → (RiskEntry → RiskState) → RiskState
at_entry none s act = s
at_entry (some entry) s act = act entry

pub on_admission : RiskState → ℕ → ℕ → ℕ → ℕ → RiskState
on_admission s order_id account price remaining_qty = when_enabled s.config s (record s {
  orders =
      insert order_id (record { account = account; price = price; remaining_qty = remaining_qty })
        s.orders;
  counters =
      insert account
        (add_to 1 (sat_mul u128_max remaining_qty price) (counters_of account s.counters))
        s.counters;
})

-- `on_fill` on the entry that it finds.
pub fill_entry : RiskState → ℕ → RiskEntry → ℕ → RiskState
unfolding evict_if_zeroed
fill_entry s maker_id entry filled_qty =
    let new_remaining = entry.remaining_qty - filled_qty in
    let delta = sat_mul u128_max filled_qty entry.price in
    if new_remaining == 0
    then record s {
      orders = erase maker_id s.orders;
      counters =
          evict_if_zeroed entry.account (adjust entry.account (take_from 1 delta) s.counters);
    }
    else record s {
      orders = insert maker_id (record entry { remaining_qty = new_remaining }) s.orders;
      counters = adjust entry.account (take_from 0 delta) s.counters;
    }

pub on_fill : RiskState → ℕ → ℕ → RiskState
unfolding fill_entry
on_fill s maker_id filled_qty =
    when_enabled s.config s
      (at_entry (lookup maker_id s.orders) s λ entry. fill_entry s maker_id entry filled_qty)

-- `on_quantity_update` on the entry that it finds.
pub update_entry : RiskState → ℕ → RiskEntry → ℕ → RiskState
update_entry s order_id entry new_remaining = record s {
  orders = insert order_id (record entry { remaining_qty = new_remaining }) s.orders;
  counters =
      if leb entry.remaining_qty new_remaining
      then adjust entry.account
          (add_to 0 (sat_mul u128_max (new_remaining - entry.remaining_qty) entry.price)) s.counters
      else adjust entry.account
          (take_from 0 (sat_mul u128_max (entry.remaining_qty - new_remaining) entry.price))
          s.counters;
}

pub on_quantity_update : RiskState → ℕ → ℕ → RiskState
unfolding update_entry
on_quantity_update s order_id new_remaining =
    when_enabled s.config s
      (at_entry (lookup order_id s.orders) s λ entry. update_entry s order_id entry new_remaining)

-- `on_cancel` on the entry that it finds.
pub cancel_entry : RiskState → ℕ → RiskEntry → RiskState
unfolding evict_if_zeroed
cancel_entry s order_id entry = record s {
  orders = erase order_id s.orders;
  counters =
      evict_if_zeroed entry.account
        (adjust entry.account (take_from 1 (exposure entry)) s.counters);
}

unfoldable pub on_cancel : RiskState → ℕ → RiskState
unfolding cancel_entry
on_cancel s order_id =
    when_enabled s.config s
      (at_entry (lookup order_id s.orders) s λ entry. cancel_entry s order_id entry)
