-- ===== src/Modify/Atomic.antt =====
-- What a refused update of an order leaves behind (src/orderbook/modifications.rs, `update_order`).
use order_book_rs.Prelude.{
  if◌then◌else◌, ℕ, ◌≡◌, refl, Option, none, some, ◌==◌, inl, if_cases, option_cases,
}
use order_book_rs.Prelude.Maps.{lookup}
use order_book_rs.Prelude.Result.{Result, ok, err}
use order_book_rs.Types.{Side, Order}
use order_book_rs.Error.{BookError}
use order_book_rs.PriceLevel.{PriceLevels}
use order_book_rs.Book.{Book, invalidate, side_levels}
use order_book_rs.Orders.{set_quantity}
use order_book_rs.Queries.{check_kill_switch, get_order}
use order_book_rs.Submission.Shape.{◌then_in◌}
use order_book_rs.Submission.Steps.{IsUntouched}
use order_book_rs.Modify.Gates.{Passes, IsCleared}
use order_book_rs.Modify.Outcomes.{Outcome, modify_found-Outcome, update_at-Outcome}
use order_book_rs.Modify.{
  OrderUpdate, is_modify, replaced, do_update_price, do_update_price_and_quantity, do_replace,
  do_update_quantity, do_cancel, dispatch, update_order,
}

-- The order that an update is about.
abbrev pub target : OrderUpdate → ℕ
target (OrderUpdate.update_price id price) = id
target (OrderUpdate.update_quantity id quantity) = id
target (OrderUpdate.update_price_and_quantity id price quantity) = id
target (OrderUpdate.cancel id) = id
target (OrderUpdate.replace id price quantity side) = id

-- The order that an update of the price makes of the one that rests, and of the quantity likewise.
abbrev pub revised : OrderUpdate → Order → Order
revised (OrderUpdate.update_price id price) o = record o { price = price }
revised (OrderUpdate.update_price_and_quantity id price quantity) o = record o {
  price = price;
  kind = set_quantity o.kind quantity;
}
revised (OrderUpdate.replace id price quantity side) o = replaced o id price quantity side
revised update o = o

module _ (P : PriceLevels) (b : Book P) where
  -- The order rests, and what the update makes of it passes every check on the book as it stands.
  abbrev pub IsResubmittable : OrderUpdate → Type 0
  IsResubmittable update =
      (o : Order) × (get_order P b (target update) ≡ some o)
      × IsCleared P b (target update) (revised update o)

  -- What an update that is carried out has passed.
  abbrev pub IsVetted : OrderUpdate → Type 0
  IsVetted (OrderUpdate.cancel id) = Unit
  IsVetted (OrderUpdate.update_quantity id quantity) =
      (o : Order) × (price : ℕ) × (side : Side) × (b₂ : Book P) × (get_order P b id ≡ some o)
      × (lookup id b.order_locations ≡ some (price, side))
      × Passes P b id (P.with_reduced_quantity o quantity) price b₂
  IsVetted update = IsResubmittable update

  -- What an update that is refused with its order gone has passed; only a re-price takes the order away
  -- before it is refused.
  abbrev pub IsVettedLoss : OrderUpdate → Type 0
  IsVettedLoss (OrderUpdate.cancel id) = ⊥
  IsVettedLoss (OrderUpdate.update_quantity id quantity) = ⊥
  IsVettedLoss update = IsResubmittable update

  -- A re-price does nothing only where no order of its id rests.
  abbrev pub IsMissed : OrderUpdate → Type 0
  IsMissed (OrderUpdate.cancel id) = Unit
  IsMissed (OrderUpdate.update_quantity id quantity) = Unit
  IsMissed update = get_order P b (target update) ≡ none

  unlocated : (id : ℕ) → lookup id b.order_locations ≡ none → get_order P b id ≡ none
  unfolding get_order
  unlocated id e = rw (get_order, e) refl

  abbrev DispatchOutcome : Book P → OrderUpdate → Result BookError (Option Order) × Book P → Type 0
  DispatchOutcome start update =
      Outcome P start (IsMissed update) (IsVetted update) (IsVettedLoss update) (target update)

  dispatch-Outcome :
      (start : Book P) (update : OrderUpdate)
      → IsUntouched P start b
      → DispatchOutcome start update (dispatch P b update)
  unfolding dispatch do_update_price do_update_quantity do_update_price_and_quantity do_cancel
      do_replace replaced
  dispatch-Outcome start (OrderUpdate.update_price id new_price) h =
      let C = DispatchOutcome start (OrderUpdate.update_price id new_price) in
      option_cases C (lookup id b.order_locations) _ _ (unlocated id) (λ (old_price, side) _.
        if_cases C (old_price == new_price) _ _ (λ _. inl h)
          (λ _.
            modify_found-Outcome P start _ _ _ b id (λ o. record o { price = new_price }) (λ o e. e)
              h (λ e. e) (λ o e c. ((o, e, c), (o, e, c)))))
  dispatch-Outcome start (OrderUpdate.update_quantity id quantity) h =
      let C = DispatchOutcome start (OrderUpdate.update_quantity id quantity) in
      option_cases C (lookup id b.order_locations) _ _ (λ _. tt)
        (λ (price, side) located.
          option_cases C (lookup price (side_levels b side)) _ _ (λ _. tt)
            (λ level standing.
              update_at-Outcome P start _ _ _ b id quantity price side level h tt
                (λ o b₂ found passed. (
                  o,
                  price,
                  side,
                  b₂,
                  rw (get_order, located, standing, found) refl,
                  located,
                  passed,
                ))))
  dispatch-Outcome start (OrderUpdate.update_price_and_quantity id new_price quantity) h =
      let C = DispatchOutcome start (OrderUpdate.update_price_and_quantity id new_price quantity) in
      option_cases C (lookup id b.order_locations) _ _ (unlocated id) (λ location _.
        modify_found-Outcome P start _ _ _ b id
          (λ o. record o { price = new_price; kind = set_quantity o.kind quantity }) (λ o e. e) h
          (λ e. e) (λ o e c. ((o, e, c), (o, e, c))))
  dispatch-Outcome start (OrderUpdate.cancel id) h =
      let C = DispatchOutcome start (OrderUpdate.cancel id) in
      option_cases C (lookup id b.order_locations) _ _ (λ _. tt)
        (λ (price, side) _. option_cases C (get_order P b id) _ _ (λ _. tt) (λ o _. tt))
  dispatch-Outcome start (OrderUpdate.replace id price quantity side) h =
      modify_found-Outcome P start _ _ _ b id (λ o. replaced o id price quantity side) (λ o e. refl)
        h (λ e. e) (λ o e c. ((o, e, c), (o, e, c)))

-- The outcomes of an update, with its cached prices dropped: nothing is done, it is carried out after
-- the checks, or it is refused.
abbrev pub IsAtomic :
    (P : PriceLevels) → Book P → OrderUpdate → Result BookError (Option Order) × Book P → Type 0
IsAtomic P b update =
    let start : Book P = record b { cache = invalidate b.cache } in
    Outcome P b (IsMissed P start update) (IsVetted P start update) (IsVettedLoss P start update)
      (target update)

-- Every update is checked before anything is changed. One that is carried out, a cancel apart, found its
-- order, and what it makes of it passed the check of its shape and the risk check, and with a new price
-- or as a replacement the check against the account's own orders too. A refused update leaves both sides,
-- the indices and the booked risk as they are; or else it is one of a new price or a replacement that
-- passed all of these checks, and its order is located nowhere afterwards. A re-price answers that there
-- is nothing to do only where no order of its id rests.
pub update_order-IsAtomic :
    (P : PriceLevels) (b : Book P) (update : OrderUpdate)
    → IsAtomic P b update (update_order P b update)
unfolding update_order ◌then_in◌
update_order-IsAtomic P b update =
    of_switch (if is_modify update then check_kill_switch P b else ok tt)
  where
    of_switch :
        (r : Result BookError (Unit {0}))
        → IsAtomic P b update
            ((r, b) then_in (λ _ b. dispatch P (record b { cache = invalidate b.cache }) update))
    of_switch (ok u) =
        dispatch-Outcome P (record b { cache = invalidate b.cache }) b update
          (refl, refl, refl, refl, refl, refl)
    of_switch (err e) = inl (refl, refl, refl, refl, refl, refl)
