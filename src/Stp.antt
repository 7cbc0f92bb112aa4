-- ===== src/Stp.antt =====
-- src/orderbook/stp.rs: the scan of one price level for self-trades. How much of an order is
-- visible is `pricelevel`'s, and an argument here.
pub mod Scan
use order_book_rs.Prelude.{
  ℕ, Bool, true, false, Option, none, some, List, [], ◌∷◌, ◌==◌, if◌then◌else◌, any,
}
use order_book_rs.Prelude.Words.{u64_max, sat_add}
use order_book_rs.Types.{Order}
use order_book_rs.Error.{StpMode}

-- `STPMode::is_enabled`
unfoldable pub is_enabled : StpMode → Bool
is_enabled StpMode.none = false
is_enabled _ = true

pub data StpAction : Type 0 where
  no_conflict cancel_maker : StpAction
  cancel_taker : ℕ → StpAction
  cancel_both : ℕ → ℕ → StpAction

-- The loop of `CancelTaker` and `CancelBoth`: the visible quantity ahead of the first order of the
-- taker's account, and that order.
pub first_conflict : (Order → ℕ) → ℕ → ℕ → List Order → Option (ℕ × Order)
first_conflict visible user safe [] = none
first_conflict visible user safe (o ∷ orders) =
    if o.user_id == user
    then some (safe, o)
    else first_conflict visible user (sat_add u64_max safe (visible o)) orders

-- The `match` on the mode.
pub scan : (Order → ℕ) → List Order → ℕ → StpMode → StpAction
unfolding first_conflict
scan visible orders user StpMode.none = StpAction.no_conflict
scan visible orders user StpMode.cancel_taker = elim (first_conflict visible user 0 orders) [
  | none ↦ StpAction.no_conflict
  | some (safe, o) ↦ StpAction.cancel_taker safe
]
scan visible orders user StpMode.cancel_maker =
    if any (λ (o : Order). o.user_id == user) orders
    then StpAction.cancel_maker
    else StpAction.no_conflict
scan visible orders user StpMode.cancel_both = elim (first_conflict visible user 0 orders) [
  | none ↦ StpAction.no_conflict
  | some (safe, o) ↦ StpAction.cancel_both safe o.id
]

-- `check_stp_at_level`: an anonymous taker (account 0) is never checked.
pub check_stp_at_level : (Order → ℕ) → List Order → ℕ → StpMode → StpAction
unfolding scan
check_stp_at_level visible orders user mode =
    if user == 0 then StpAction.no_conflict else scan visible orders user mode
