-- ===== src/Tests/MassCancels.antt =====
-- The cancels of many orders, at a concrete book.
use order_book_rs.Prelude.{◌≡◌, ◌+◌, ◌⊎◌, refl, false, none, some, [], ◌∷◌, All, arith}
use order_book_rs.Types.{Side}
use order_book_rs.Cancel.Effects.{IsWellFormed}
use order_book_rs.Risk.{RiskConfig}
use order_book_rs.Book.{Book}
use order_book_rs.MassCancel.{
  cancel_orders_by_side, cancel_orders_by_user, cancel_orders_by_price_range, evict_expired_orders,
  cancel_all_orders,
}
use order_book_rs.MassCancel.Listing.{IsListed, AllOrders, IsResting, IsDrained, order_total}
use order_book_rs.MassCancel.Effects.{
  Strikes, mass_cancels-Strikes, mass_cancels-IsWellFormed, cancel_all_orders-drains,
}
use order_book_rs.Tests.Fifo.{fifo, fifo-laws}
use order_book_rs.Tests.Depth.{quiet}

-- The risk layer tracks one of the asks of account 7.
abbrev limits : RiskConfig
limits = record {
  max_open_orders_per_account = some 3;
  max_notional_per_account = some 5_000;
  price_band_bps = none;
  reference_price = none;
}

abbrev watched : Book fifo
watched = record quiet {
  risk_state = record {
    config = some limits;
    counters = (7, record { open_count = 1; resting_notional = 500 }) ∷ [];
    orders = (1, record { account = 7; price = 100; remaining_qty = 5 }) ∷ [];
    warned_no_reference = false;
  };
}

watched-IsWellFormed : IsWellFormed fifo watched
watched-IsWellFormed = record {
  keyed_bids = (refl, tt);
  keyed_asks = (refl, (refl, tt));
  balanced = record {
    distinct = (refl, tt);
    counted = λ a. ground arith;
    notional = λ a. ground arith;
  };
  covered = λ cfg id e t. ground arith;
}

struck_example :
    Strikes fifo 3 quiet (cancel_orders_by_side fifo quiet Side.sell)
    × Strikes fifo 3 quiet (cancel_orders_by_user fifo quiet 7)
    × Strikes fifo 3 quiet (cancel_orders_by_price_range fifo quiet Side.sell 101 105)
struck_example = mass_cancels-Strikes fifo quiet Side.sell 7 101 105 3

all_kept_example :
    IsWellFormed fifo (cancel_all_orders fifo watched).1
    × IsWellFormed fifo (cancel_orders_by_side fifo watched Side.sell).1
    × IsWellFormed fifo (cancel_orders_by_user fifo watched 7).1
    × IsWellFormed fifo (cancel_orders_by_price_range fifo watched Side.sell 101 105).1
    × IsWellFormed fifo (evict_expired_orders fifo watched 50).1
all_kept_example =
    mass_cancels-IsWellFormed fifo fifo-laws watched Side.sell 7 101 105 50 watched-IsWellFormed

emptied_example :
    let (report, b') = cancel_all_orders fifo quiet in
    AllOrders fifo (IsListed report.cancelled_order_ids) quiet.bids
    × AllOrders fifo (IsListed report.cancelled_order_ids) quiet.asks
    × All
        (λ id. IsResting fifo quiet.bids id ⊎ IsResting fifo quiet.asks id)
        report.cancelled_order_ids
    × (report.cancelled_count ≡ order_total fifo quiet.bids + order_total fifo quiet.asks)
    × IsDrained fifo b'.bids
    × IsDrained fifo b'.asks
emptied_example = cancel_all_orders-drains fifo quiet
