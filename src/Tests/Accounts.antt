-- ===== src/Tests/Accounts.antt =====
-- The properties of the risk layer and of the self-trade scan, at concrete inputs.
use order_book_rs.Prelude.{◌*◌, ◌≤◌, ◌≡◌, ◌^◌, ◌-◌, refl, false, none, some, List, [], ◌∷◌, arith}
use order_book_rs.Prelude.Maps.{lookup}
use order_book_rs.Prelude.Result.{ok}
use order_book_rs.Types.{Side, Order}
use order_book_rs.Error.{StpMode}
use order_book_rs.Risk.{
  RiskState, RiskConfig, RiskEntry, counters_of, check_limit_admission, check_modify_admission,
  check_open_orders, check_notional, check_price_band, check_projected, on_admission, on_cancel,
}
use order_book_rs.Risk.Accounts.{IsBalanced}
use order_book_rs.Risk.Accounts.Hooks.{Hook, apply, apply-IsBalanced}
use order_book_rs.Risk.Gate.{admission_within_limits, modify_predicts_admission}
use order_book_rs.Stp.{check_stp_at_level}
use order_book_rs.Stp.Scan.{Meets, check_stp_at_level-Meets}
use order_book_rs.Tests.Market.{resting}

abbrev limits : RiskConfig
limits = record {
  max_open_orders_per_account = some 3;
  max_notional_per_account = some 5_000;
  price_band_bps = none;
  reference_price = none;
}

-- One account with one order of 10 at 100.
abbrev entry : RiskEntry
entry = record { account = 7; price = 100; remaining_qty = 10 }

abbrev gate : RiskState
gate = record {
  config = some limits;
  counters = (7, record { open_count = 1; resting_notional = 1_000 }) ∷ [];
  orders = (1, entry) ∷ [];
  warned_no_reference = false;
}

gate-IsBalanced : IsBalanced gate
gate-IsBalanced = record {
  distinct = (refl, tt);
  counted = λ a. ground arith;
  notional = λ a. ground arith;
}

apply_example : IsBalanced (apply gate (Hook.filled 1 4))
apply_example = apply-IsBalanced gate (Hook.filled 1 4) sound gate-IsBalanced
  where
    sound :
        (e : RiskEntry)
        → lookup 1 gate.orders ≡ some e
        → (4 ≤ e.remaining_qty) × (e.remaining_qty * e.price ≤ 2 ^ 128 - 1)
    sound e h = ground arith

admitted-ok : (check_limit_admission gate 7 100 20 none).0 ≡ ok tt
unfolding check_limit_admission check_open_orders check_notional check_price_band
admitted-ok = refl

admission_example :
    let c = counters_of 7 (on_admission gate 2 7 100 20).counters in
    (c.open_count ≤ 3) × (c.resting_notional ≤ 5_000)
admission_example =
    admission_within_limits gate limits 2 7 100 20 none refl refl refl (omega arith) (omega arith)
      admitted-ok

modified-ok : (check_modify_admission gate 1 7 100 45 none).0 ≡ ok tt
unfolding check_modify_admission check_projected check_price_band
modified-ok = refl

modify_example : (check_limit_admission (on_cancel gate 1) 7 100 45 none).0 ≡ ok tt
modify_example =
    modify_predicts_admission gate limits 1 entry 100 45 none gate-IsBalanced refl refl
      (omega arith) modified-ok

abbrev ask_queue : List Order
ask_queue = resting 1 7 Side.sell 100 5 ∷ resting 2 8 Side.sell 100 3 ∷ []

scan_example :
    Meets
      (λ o. o.price)
      ask_queue
      8
      StpMode.cancel_both
      (check_stp_at_level (λ o. o.price) ask_queue 8 StpMode.cancel_both)
scan_example = check_stp_at_level-Meets (λ o. o.price) ask_queue 8 StpMode.cancel_both
