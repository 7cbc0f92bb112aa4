-- ===== src/Submission/Gate.antt =====
-- What the gates of the submit path leave alone, and whom they never let in.
use order_book_rs.Prelude.{◌≡◌, refl, Bool, true, false, if_true}
use order_book_rs.Orders.{total_quantity}
use order_book_rs.Prelude.Maps.{contains}
use order_book_rs.Prelude.Result.{Result, ok, err, is_ok}
use order_book_rs.Types.{Order}
use order_book_rs.Error.{BookError}
use order_book_rs.RejectReason.{of_error}
use order_book_rs.PriceLevel.{PriceLevels}
use order_book_rs.Book.{Book}
use order_book_rs.Queries.{
  check_risk_limit_admission, reject_with_risk, check_kill_switch_or_reject,
}
use order_book_rs.Submission.Shape.{◌then_in◌, record_shape_rejection}
use order_book_rs.Submission.Add.{or_record, check_total, check_duplicate, admit, add_order_inner}
use order_book_rs.Submission.Steps.{
  check_risk-IsUntouched, reject-IsUntouched, record_shape-IsUntouched, then_in-IsUntouched,
  or_record-IsUntouched, validate-IsUntouched, check_headroom-IsUntouched, kill_switch-IsUntouched,
  IsUntouched,
}

module _ (P : PriceLevels) (start : Book P) where
  -- The gates ahead of the check for a duplicate.
  abbrev early_gates : Order → Result BookError (Unit {0}) × Book P
  early_gates o =
      check_kill_switch_or_reject P start o.id
      then_in (λ _ b. or_record P (λ b e. record_shape_rejection P b o e) (check_total P b o, b))
      then_in (λ _ b.
          or_record P (λ b e. reject_with_risk P b o.id e)
            (check_risk_limit_admission P b o.user_id o.price (total_quantity o.kind)))

  early_gates-IsUntouched : (o : Order) → IsUntouched P start (early_gates o).1
  unfolding reject_with_risk
  early_gates-IsUntouched o =
      then_in-IsUntouched P start _ _
        (then_in-IsUntouched P start _ _
          (kill_switch-IsUntouched P start start o.id (refl, refl, refl, refl, refl, refl))
          (λ _ b h.
            or_record-IsUntouched P start (λ b e. record_shape_rejection P b o e) _
              (λ b e h. record_shape-IsUntouched P start b o e h) h))
        (λ _ b h.
          or_record-IsUntouched P start (λ b e. reject_with_risk P b o.id e) _
            (λ b e h. reject-IsUntouched P start b o.id (of_error e) h)
            (check_risk-IsUntouched P start b o.user_id o.price (total_quantity o.kind) h))

  -- Whatever the gates of a submission decide, they leave both sides of the book, the indices and
  -- the booked risk as they are.
  pub admit-IsUntouched :
      (o : Order)
      → let b' = (admit P start o).1 in
        (b'.bids ≡ start.bids)
        × (b'.asks ≡ start.asks)
        × (b'.order_locations ≡ start.order_locations)
        × (b'.user_orders ≡ start.user_orders)
        × (b'.risk_state.orders ≡ start.risk_state.orders)
        × (b'.risk_state.counters ≡ start.risk_state.counters)
  unfolding admit
  admit-IsUntouched o =
      then_in-IsUntouched P start _ _
        (then_in-IsUntouched P start _ _
          (then_in-IsUntouched P start (early_gates o) _ (early_gates-IsUntouched o) (λ _ b h. h))
          (λ _ b h.
            or_record-IsUntouched P start (λ b e. record_shape_rejection P b o e) _
              (λ b e h. record_shape-IsUntouched P start b o e h)
              (validate-IsUntouched P start b o h)))
        (λ _ b h. check_headroom-IsUntouched P start b o h)

  -- Refused, with nothing touched.
  abbrev IsRefused : {A : Type 0} → Result BookError A × Book P → Type 0
  IsRefused (r, b) = (is_ok r ≡ false) × IsUntouched P start b

  still-IsRefused :
      {A B : Type 0} (r : Result BookError A × Book P)
      (f : A → Book P → Result BookError B × Book P)
      → IsRefused r
      → IsRefused (r then_in f)
  unfolding ◌then_in◌
  still-IsRefused (ok a, b) f h = cc
  still-IsRefused (err e, b) f h = (refl, h.1)

  then_in-IsRefused :
      {A B : Type 0} (r : Result BookError A × Book P)
      (f : A → Book P → Result BookError B × Book P)
      → IsUntouched P start r.1
      → ((a : A) (b : Book P) → IsUntouched P start b → IsRefused (f a b))
      → IsRefused (r then_in f)
  unfolding ◌then_in◌
  then_in-IsRefused (ok a, b) f h k = k a b h
  then_in-IsRefused (err e, b) f h k = (refl, h)

  check_duplicate-IsRefused :
      (o : Order) (b : Book P)
      → contains o.id start.order_locations ≡ true
      → IsUntouched P start b
      → IsRefused (check_duplicate P b o, b)
  unfolding check_duplicate
  check_duplicate-IsRefused o b here h =
      if_true (λ (r : Result BookError (Unit {0})). IsRefused (r, b))
        (contains o.id b.order_locations) _ _ (rw h.2 here) (refl, h)

  -- An order whose id is located on the book is never accepted again: the submission is an error, and
  -- the book, the indices and the booked risk stay as they are.
  pub add_order_inner-duplicate :
      (o : Order) (want : Bool)
      → contains o.id start.order_locations ≡ true
      → let (r, b') = add_order_inner P start o want in
        (is_ok r ≡ false)
        × (b'.bids ≡ start.bids)
        × (b'.asks ≡ start.asks)
        × (b'.order_locations ≡ start.order_locations)
        × (b'.user_orders ≡ start.user_orders)
        × (b'.risk_state.orders ≡ start.risk_state.orders)
        × (b'.risk_state.counters ≡ start.risk_state.counters)
  unfolding add_order_inner admit
  add_order_inner-duplicate o want here =
      let (denied, h) = still-IsRefused _ _ (
        still-IsRefused _ _ (
          still-IsRefused _ _ (
            then_in-IsRefused (early_gates o) _ (early_gates-IsUntouched o)
              (λ _ b h. check_duplicate-IsRefused o b here h)))) in
      let (bid, ask, loc, usr, os, cs) = h in (denied, bid, ask, loc, usr, os, cs)
