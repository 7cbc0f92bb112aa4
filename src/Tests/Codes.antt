-- ===== src/Tests/Codes.antt =====
-- The properties of the codes and the fees, at concrete inputs.
use order_book_rs.Prelude.{true, arith}
use order_book_rs.Prelude.Int.{pos, negsuc}
use order_book_rs.Fees.{FeeSchedule}
use order_book_rs.Fees.Exact.{Outcome, calculate_fee-Outcome}

-- A rebate of 2 for the maker, 5 for the taker, in basis points.
abbrev schedule : FeeSchedule
schedule = record { maker_fee_bps = negsuc 1; taker_fee_bps = pos 5 }

outcome_example : Outcome schedule 1_000_000 true
outcome_example = calculate_fee-Outcome schedule 1_000_000 true (omega arith)
