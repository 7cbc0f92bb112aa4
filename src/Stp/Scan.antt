-- ===== src/Stp/Scan.antt =====
-- What the scan finds, against the list of resting orders.
use order_book_rs.Prelude.{
  ℕ, ◌≤◌, ◌≡◌, ◌≢◌, refl, true, false, none, some, List, [], ◌∷◌, ◌++◌, arith, ◌==◌, ◌⊎◌, inl, inr,
  any, All, sum_of, Option-cases, Bool-cases, if_cases, ap,
}
use order_book_rs.Prelude.Words.{u64_max, sat_add}
use order_book_rs.Types.{Order}
use order_book_rs.Error.{StpMode}
use order_book_rs.Stp.{StpAction, first_conflict, scan, check_stp_at_level, is_enabled}

-- No order of the list belongs to the account.
abbrev pub IsForeign : ℕ → List Order → Type 0
IsForeign user = All (λ (o : Order). o.user_id ≢ user)

first_conflict-none :
    (visible : Order → ℕ) (user safe : ℕ) (orders : List Order)
    → first_conflict visible user safe orders ≡ none
    → IsForeign user orders
unfolding first_conflict
first_conflict-none visible user safe [] h = tt
first_conflict-none visible user safe (o ∷ orders) h =
    ground (arith, first_conflict-none visible user (sat_add u64_max safe (visible o)) orders)

-- The list splits at an order of the account: nothing of the account is ahead of it, and `safe` is
-- the visible quantity there, added to `base` and cut to a `u64`.
abbrev pub SplitsAt : (Order → ℕ) → ℕ → ℕ → List Order → ℕ → Order → Type 0
SplitsAt visible user base orders safe o =
    (ahead : List Order) × (rest : List Order) × (orders ≡ ahead ++ o ∷ rest)
    × IsForeign user ahead
    × (o.user_id ≡ user)
    × (safe ≡ sat_add u64_max base (sum_of visible ahead))

first_conflict-some :
    (visible : Order → ℕ) (user safe : ℕ) (orders : List Order) (r : ℕ) (o : Order)
    → first_conflict visible user safe orders ≡ some (r, o)
    → safe ≤ u64_max
    → SplitsAt visible user safe orders r o
unfolding first_conflict
first_conflict-some visible user safe [] r o h b = cc
first_conflict-some visible user safe (x ∷ orders) r o h b = elim (Bool-cases (x.user_id == user)) [
  | inl hit ↦ ([], orders, ground arith, tt, ground arith, ground arith)
  | inr miss ↦
      let (ahead, rest, e, foreign, own, safe_eq) =
        first_conflict-some visible user (sat_add u64_max safe (visible x)) orders r o
          (ground arith) (omega arith) in
      (x ∷ ahead, rest, ap (◌∷◌ x) e, (ground arith, foreign), own, omega arith)
]

-- What each action says of the resting orders.
abbrev pub Meets : (Order → ℕ) → List Order → ℕ → StpMode → StpAction → Type 0
Meets visible orders user mode StpAction.no_conflict =
    (is_enabled mode ≡ false) ⊎ (user ≡ 0) ⊎ IsForeign user orders
Meets visible orders user mode StpAction.cancel_maker =
    (mode ≡ StpMode.cancel_maker) × (user ≢ 0) × ¬ IsForeign user orders
Meets visible orders user mode (StpAction.cancel_taker safe) =
    (mode ≡ StpMode.cancel_taker)
    × (user ≢ 0)
    × ((o : Order) × SplitsAt visible user 0 orders safe o)
Meets visible orders user mode (StpAction.cancel_both safe maker) =
    (mode ≡ StpMode.cancel_both)
    × (user ≢ 0)
    × ((o : Order) × SplitsAt visible user 0 orders safe o × (o.id ≡ maker))

any-not-IsForeign :
    (user : ℕ) (orders : List Order)
    → any (λ (o : Order). o.user_id == user) orders ≡ true
    → ¬ IsForeign user orders
any-not-IsForeign user [] h f = cc
any-not-IsForeign user (o ∷ orders) h f = ground (arith, any-not-IsForeign user orders)

any-IsForeign :
    (user : ℕ) (orders : List Order)
    → any (λ (o : Order). o.user_id == user) orders ≡ false
    → IsForeign user orders
any-IsForeign user [] h = tt
any-IsForeign user (o ∷ orders) h = ground (arith, any-IsForeign user orders)

conflict_cases :
    (visible : Order → ℕ) (orders : List Order) (user : ℕ)
    → ((first_conflict visible user 0 orders ≡ none) × IsForeign user orders)
      ⊎ ((safe : ℕ) × (o : Order) × (first_conflict visible user 0 orders ≡ some (safe, o))
          × SplitsAt visible user 0 orders safe o)
conflict_cases visible orders user = elim (Option-cases (first_conflict visible user 0 orders)) [
  | inl e ↦ inl (e, first_conflict-none visible user 0 orders e)
  | inr ((safe, o), e) ↦
      inr (safe, o, e, first_conflict-some visible user 0 orders safe o e (omega arith))
]

scan-Meets :
    (visible : Order → ℕ) (orders : List Order) (user : ℕ) (mode : StpMode)
    → user ≢ 0
    → Meets visible orders user mode (scan visible orders user mode)
unfolding scan is_enabled
scan-Meets visible orders user StpMode.none h = inl refl
scan-Meets visible orders user StpMode.cancel_taker h = elim (conflict_cases visible orders user) [
  | inl (e, foreign) ↦ rw (e, scan) (inr (inr foreign))
  | inr (safe, o, e, split) ↦ rw (e, scan) (refl, h, (o, split))
]
scan-Meets visible orders user StpMode.cancel_maker h =
    if_cases (Meets visible orders user StpMode.cancel_maker)
      (any (λ (o : Order). o.user_id == user) orders) _ _
      (λ own. (refl, h, any-not-IsForeign user orders own))
      (λ none_own. inr (inr (any-IsForeign user orders none_own)))
scan-Meets visible orders user StpMode.cancel_both h = elim (conflict_cases visible orders user) [
  | inl (e, foreign) ↦ rw (e, scan) (inr (inr foreign))
  | inr (safe, o, e, split) ↦ rw (e, scan) (refl, h, (o, split, refl))
]

-- The scan is right about the resting orders of a level: no conflict if prevention is off, the taker is
-- anonymous or no order is its own; otherwise the mode's action, and the quantity that it calls safe is
-- what is visible ahead of the first order of the taker's own, cut to 64 bits.
pub check_stp_at_level-Meets :
    (visible : Order → ℕ) (orders : List Order) (user : ℕ) (mode : StpMode)
    → Meets visible orders user mode (check_stp_at_level visible orders user mode)
unfolding check_stp_at_level
check_stp_at_level-Meets visible orders user mode =
    if_cases (Meets visible orders user mode) (user == 0) _ _ (λ z. inr (inl (ground arith)))
      (λ nz. scan-Meets visible orders user mode (ground arith))
