-- ===== src/Fees.antt =====
-- src/orderbook/fees.rs: maker and taker fees in basis points of a trade's notional. A `u128` is a
-- number up to `u128_max`; an `i32` rate and an `i128` fee are integers.
pub mod Exact
use order_book_rs.Prelude.{
  ℕ, ◌+◌, ◌*◌, ◌/◌, ◌≤◌, Bool, true, false, ◌&&◌, ltb, leb, ◌==◌, if◌then◌else◌, Option,
}
use order_book_rs.Prelude.Words.{u128_max, i128_max}
use order_book_rs.Prelude.Int.{ℤ, pos, neg_of_ℕ, nat_abs, is_neg}

abbrev pub bps_denominator : ℕ
bps_denominator = 10_000

pub record FeeOverflow : Type 0 where
  pub notional : ℕ
  pub bps : ℤ
  pub max_guaranteed_exact : ℕ

pub record FeeSchedule : Type 0 where
  pub maker_fee_bps : ℤ
  pub taker_fee_bps : ℤ

pub data FeeResult : Type 0 where
  ok : ℤ → FeeResult
  err : FeeOverflow → FeeResult

-- `max_guaranteed_exact_notional_for_bps`
unfoldable pub exact_bound_for_bps : ℤ → ℕ
exact_bound_for_bps bps = if nat_abs bps == 0 then u128_max else u128_max / nat_abs bps

-- `FeeOverflow::new`
pub overflow_at : ℕ → ℤ → FeeOverflow
overflow_at notional bps = record {
  notional = notional;
  bps = bps;
  max_guaranteed_exact = exact_bound_for_bps bps;
}

-- `if bps < 0 { -magnitude } else { magnitude }`
pub signed_magnitude : ℤ → ℕ → ℤ
signed_magnitude bps magnitude = if is_neg bps then neg_of_ℕ magnitude else pos magnitude

-- The rate of the leg.
pub bps_of : FeeSchedule → Bool → ℤ
bps_of s is_maker = if is_maker then s.maker_fee_bps else s.taker_fee_bps

-- `checked_mul`, then `i128::try_from`, then the sign.
pub try_calculate_fee : FeeSchedule → ℕ → Bool → FeeResult
unfolding bps_of
try_calculate_fee s notional is_maker =
    let bps = bps_of s is_maker in
    let product = notional * nat_abs bps in
    if leb product u128_max
    then (if leb (product / bps_denominator) i128_max
        then ok (signed_magnitude bps (product / bps_denominator))
        else err (overflow_at notional bps))
    else err (overflow_at notional bps)

-- The clamp: `i128::try_from(..).unwrap_or(i128::MAX)`.
pub clamped_fee : FeeOverflow → ℤ
clamped_fee e =
    signed_magnitude e.bps
      (if leb (u128_max / bps_denominator) i128_max then u128_max / bps_denominator else i128_max)

-- What the `match` on the fallible variant does.
abbrev or_clamp : FeeResult → ℤ
or_clamp (ok fee) = fee
or_clamp (err e) = clamped_fee e

pub calculate_fee : FeeSchedule → ℕ → Bool → ℤ
calculate_fee s notional is_maker = or_clamp (try_calculate_fee s notional is_maker)

-- `max_guaranteed_exact_notional`
unfoldable pub exact_bound : FeeSchedule → ℕ
exact_bound s =
    let maker = exact_bound_for_bps s.maker_fee_bps in
    let taker = exact_bound_for_bps s.taker_fee_bps in if ltb maker taker then maker else taker

pub has_maker_rebate : FeeSchedule → Bool
has_maker_rebate s = is_neg s.maker_fee_bps

abbrev is_zero : ℤ → Bool
is_zero z = nat_abs z == 0

pub is_zero_fee : FeeSchedule → Bool
is_zero_fee s = is_zero s.maker_fee_bps && is_zero s.taker_fee_bps

pub zero_fee : FeeSchedule
zero_fee = record { maker_fee_bps = pos 0; taker_fee_bps = pos 0 }

pub taker_only : ℤ → FeeSchedule
taker_only bps = record { maker_fee_bps = pos 0; taker_fee_bps = bps }

-- `-rebate.abs()`; at `i32::MIN` the wrapping result is this value too.
pub with_maker_rebate : ℤ → ℤ → FeeSchedule
with_maker_rebate rebate taker = record {
  maker_fee_bps = neg_of_ℕ (nat_abs rebate);
  taker_fee_bps = taker;
}
