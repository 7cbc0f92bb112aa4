-- ===== src/Fees/Exact.antt =====
-- When a fee is exact, when it overflows, and the admission bound.
use order_book_rs.Prelude.{
  ℕ, zero, suc, ◌*◌, ◌/◌, ◌==◌, ◌≤◌, ◌<◌, ◌≡◌, ◌↔◌, Bool, true, false, ◌⊎◌, inl, inr, Bool-cases,
  leb, leb→le, arith,
}
use order_book_rs.Prelude.Words.{u128_max, sat_mul}
use order_book_rs.Prelude.Int.{ℤ, pos, negsuc, nat_abs, nat_abs-neg_of_ℕ}
use order_book_rs.Fees.{
  FeeSchedule, ok, err, overflow_at, signed_magnitude, bps_of, try_calculate_fee, calculate_fee,
  clamped_fee, exact_bound, exact_bound_for_bps, bps_denominator,
}

-- A product stays under a bound exactly when a factor stays under the quotient.
le-div_iff : (n b top : ℕ) → (n ≤ top / suc b) ↔ (n * suc b ≤ top)
le-div_iff n b top = (λ h. grind arith, λ h. grind arith)

suc-ne-zero : (b : ℕ) → (suc b == 0) ≡ false
suc-ne-zero b = ground arith

-- The bound of one rate is exactly the range where the product fits.
pub exact_bound_for_bps_iff :
    (n : ℕ) (bps : ℤ) → n ≤ u128_max → (n ≤ exact_bound_for_bps bps) ↔ (n * nat_abs bps ≤ u128_max)
unfolding exact_bound_for_bps
exact_bound_for_bps_iff n (pos zero) h = (λ k. omega arith, λ k. h)
exact_bound_for_bps_iff n (pos (suc b)) h = rw (suc-ne-zero b) (le-div_iff n b u128_max)
exact_bound_for_bps_iff n (negsuc b) h = rw (suc-ne-zero b) (le-div_iff n b u128_max)

nat_abs-signed_magnitude : (bps : ℤ) (m : ℕ) → nat_abs (signed_magnitude bps m) ≡ m
unfolding signed_magnitude
nat_abs-signed_magnitude bps m = ground (arith, nat_abs-neg_of_ℕ m)

pub try_calculate_fee_fits :
    (s : FeeSchedule) (n : ℕ) (m : Bool)
    → n * nat_abs (bps_of s m) ≤ u128_max
    → try_calculate_fee s n m
      ≡ ok (signed_magnitude (bps_of s m) (n * nat_abs (bps_of s m) / bps_denominator))
unfolding try_calculate_fee
try_calculate_fee_fits s n m h = ground arith

pub try_calculate_fee_overflow :
    (s : FeeSchedule) (n : ℕ) (m : Bool)
    → u128_max < n * nat_abs (bps_of s m)
    → try_calculate_fee s n m ≡ err (overflow_at n (bps_of s m))
unfolding try_calculate_fee
try_calculate_fee_overflow s n m h = ground arith

-- The exact fee of a leg: the magnitude is floored, and then takes the sign of the rate.
abbrev pub exact_fee : FeeSchedule → ℕ → Bool → ℤ
exact_fee s n m = signed_magnitude (bps_of s m) (n * nat_abs (bps_of s m) / bps_denominator)

-- What the fallible variant returns at a notional, and what the clamping one makes of it.
abbrev pub Outcome : FeeSchedule → ℕ → Bool → Type 0
Outcome s n m =
    ((n ≤ exact_bound_for_bps (bps_of s m))
      × (try_calculate_fee s n m ≡ ok (exact_fee s n m))
      × (calculate_fee s n m ≡ exact_fee s n m))
    ⊎ ((exact_bound_for_bps (bps_of s m) < n)
        × (try_calculate_fee s n m ≡ err (overflow_at n (bps_of s m)))
        × (calculate_fee s n m ≡ signed_magnitude (bps_of s m) (u128_max / bps_denominator)))

-- For a notional of 128 bits: up to the bound of the rate both variants give the exact fee, and
-- above it the fallible one reports the overflow and the other one clamps the magnitude.
pub calculate_fee-Outcome : (s : FeeSchedule) (n : ℕ) (m : Bool) → n ≤ u128_max → Outcome s n m
unfolding calculate_fee clamped_fee overflow_at
calculate_fee-Outcome s n m h = elim (Bool-cases (leb (n * nat_abs (bps_of s m)) u128_max)) [
  | inl fits ↦
      let e = try_calculate_fee_fits s n m (leb→le _ _ fits) in
      inl ((exact_bound_for_bps_iff n (bps_of s m) h).1 (leb→le _ _ fits), e, rw e)
  | inr over ↦
      let e = try_calculate_fee_overflow s n m (ground arith) in
      inr (ground (arith, (exact_bound_for_bps_iff n (bps_of s m) h).0), e, rw e)
]

-- A notional of 128 bits within the bound of the schedule has exact fees on both legs.
pub exact_bound_both :
    (s : FeeSchedule) (n : ℕ)
    → n ≤ u128_max
    → n ≤ exact_bound s
    → (calculate_fee s n true ≡ exact_fee s n true)
      × (calculate_fee s n false ≡ exact_fee s n false)
unfolding exact_bound bps_of
exact_bound_both s n h k =
    ground (arith, calculate_fee-Outcome s n true h, calculate_fee-Outcome s n false h)

-- The fee is the saturated product, floored by the division, with the sign of the rate.
pub calculate_fee-saturates :
    (s : FeeSchedule) (n : ℕ) (m : Bool)
    → n ≤ u128_max
    → calculate_fee s n m
      ≡ signed_magnitude (bps_of s m) (sat_mul u128_max n (nat_abs (bps_of s m)) / bps_denominator)
calculate_fee-saturates s n m h =
    ground (arith, calculate_fee-Outcome s n m h, exact_bound_for_bps_iff n (bps_of s m) h)

nat_abs-calculate_fee :
    (s : FeeSchedule) (n : ℕ) (m : Bool)
    → n ≤ u128_max
    → nat_abs (calculate_fee s n m) ≡ sat_mul u128_max n (nat_abs (bps_of s m)) / bps_denominator
nat_abs-calculate_fee s n m h = rw (calculate_fee-saturates s n m h) (nat_abs-signed_magnitude _ _)

-- A fee never moves towards zero when the notional grows within 128 bits, also not where the clamp
-- sets in.
pub nat_abs-calculate_fee_mono :
    (s : FeeSchedule) (a b : ℕ) (m : Bool)
    → a ≤ b
    → b ≤ u128_max
    → nat_abs (calculate_fee s a m) ≤ nat_abs (calculate_fee s b m)
nat_abs-calculate_fee_mono s a b m h k =
    rw (nat_abs-calculate_fee s a m (omega arith), nat_abs-calculate_fee s b m k) (grind arith)
