-- ===== src/Risk/Views.antt =====
-- What the counters of an account are after each change of the counters map.
use order_book_rs.Prelude.{ℕ, ◌≡◌, arith, ◌==◌, if◌then◌else◌}
use order_book_rs.Prelude.Maps.{Map, insert, lookup-erase}
use order_book_rs.Risk.{RiskCounters, no_counters, counters_of, adjust, take_from, evict_if_zeroed}

pub counters_of-insert :
    (a b : ℕ) (c : RiskCounters) (m : Map RiskCounters)
    → counters_of b (insert a c m) ≡ (if a == b then c else counters_of b m)
counters_of-insert a b c m = ground (arith, lookup-erase a b m)

-- An eviction is not seen: what it drops reads as zero.
pub counters_of-evict :
    (a b : ℕ) (m : Map RiskCounters) → counters_of b (evict_if_zeroed a m) ≡ counters_of b m
unfolding evict_if_zeroed
counters_of-evict a b m = ground (arith, lookup-erase a b m)

pub counters_of-adjust :
    (a b : ℕ) (f : RiskCounters → RiskCounters) (m : Map RiskCounters)
    → f no_counters ≡ no_counters
    → counters_of b (adjust a f m) ≡ (if a == b then f (counters_of a m) else counters_of b m)
counters_of-adjust a b f m z = ground (arith, lookup-erase a b m)

-- A subtraction that finds no counters leaves zero, which is what zero less anything is.
pub counters_of-take :
    (a b count notional : ℕ) (m : Map RiskCounters)
    → counters_of b (adjust a (take_from count notional) m)
      ≡ (if a == b then take_from count notional (counters_of a m) else counters_of b m)
counters_of-take a b count notional m =
    counters_of-adjust a b (take_from count notional) m (ground arith)
