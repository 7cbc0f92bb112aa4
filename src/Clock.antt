-- ===== src/Clock.antt =====
-- src/orderbook/clock.rs: millisecond clocks. A `dyn Clock` is the sequence of its readings and the
-- number of readings taken; the wall clock's readings are the environment's.
use Prim.Native.Nat.{max}
use order_book_rs.Prelude.{ℕ, zero, suc, ◌+◌, ◌*◌, ◌%◌, ◌^◌, ◌<◌, ◌≡◌, ◌∙◌, arith}

pub record Clock : Type 0 where
  pub reading : ℕ → ℕ
  pub reads : ℕ

-- `Clock::now_millis`
abbrev pub now_millis : Clock → ℕ × Clock
now_millis c = (c.reading c.reads, record c { reads = c.reads + 1 })

pub record StubClock : Type 0 where
  pub counter : ℕ
  pub step : ℕ

-- `StubClock::with_step`
unfoldable pub with_step : ℕ → ℕ → StubClock
with_step start step = record { counter = start; step = max step 1 }

-- `now_millis`: `fetch_add`, which wraps at 64 bits.
unfoldable pub stub_now_millis : StubClock → ℕ × StubClock
stub_now_millis c = (c.counter, record c { counter = (c.counter + c.step) % 2 ^ 64 })

-- The reading that a stub clock gives after `n` others.
unfoldable pub stub_reading : StubClock → ℕ → ℕ
stub_reading c zero = (stub_now_millis c).0
stub_reading c (suc n) = stub_reading (stub_now_millis c).1 n

-- Readings go up by the step as long as they fit 64 bits.
pub stub_reading-linear :
    (n : ℕ) (c : StubClock)
    → c.counter + n * c.step < 2 ^ 64
    → stub_reading c n ≡ c.counter + n * c.step
unfolding stub_reading stub_now_millis
stub_reading-linear zero c h = omega arith
stub_reading-linear (suc n) c h =
    let small : (c.counter + c.step) % 2 ^ 64 ≡ c.counter + c.step = grind arith in
    stub_reading-linear n (stub_now_millis c).1 (rw small (omega arith)) ∙ rw small (omega arith)
