-- ===== src/Modify/Outcomes.antt =====
-- The outcomes of the steps of an update (src/orderbook/modifications.rs, `update_order`).
use order_book_rs.Prelude.{
  ℕ, ◌≡◌, refl, sym, ◌∙◌, subst, true, false, Option, none, some, List, [], ◌∷◌, ◌==◌, ◌⊎◌, inl,
  inr, option_cases, Bool-cases, arith,
}
use Prim.Native.String.{String}
use order_book_rs.Prelude.Maps.{Map, lookup, erase, lookup-erase, contains}
use order_book_rs.Prelude.Result.{Result, ok, err, is_ok}
use order_book_rs.Types.{Side, Order}
use order_book_rs.Error.{BookError}
use order_book_rs.OrderState.{CancelReason}
use order_book_rs.PriceLevel.{PriceLevels}
use order_book_rs.Book.{Book, invalidate, emit_level_change, side_levels}
use order_book_rs.Orders.{total_quantity}
use order_book_rs.Queries.{find_order, get_order}
use order_book_rs.Cancel.{strike}
use order_book_rs.Cancel.Effects.{cancel_cases}
use order_book_rs.Submission.Shape.{◌then_in◌}
use order_book_rs.Submission.Add.{Answer, add_order_inner}
use order_book_rs.Submission.Steps.{IsUntouched, then_in-IsUntouched, validate-IsUntouched}
use order_book_rs.Submission.Gate.{add_order_inner-duplicate}
use order_book_rs.Submission.Effects.Locations.{IsGoneOnRefusal, add_order_inner-gone}
use order_book_rs.Modify.Gates.{
  Passes, IsCleared, then_in-Passes, check_modify-IsCleared, check_risk_modify-IsUntouched,
  check_modify-IsUntouched,
}
use order_book_rs.Modify.{
  answer, check_modify, cancel_and_add, resubmit, modify_found, apply_quantity, update_at,
}

module _ (P : PriceLevels) where
  IsUntouched-trans :
      (start b b' : Book P) → IsUntouched P start b → IsUntouched P b b' → IsUntouched P start b'
  IsUntouched-trans start b b' h k =
      (k.0 ∙ h.0, k.1 ∙ h.1, k.2 ∙ h.2, k.3 ∙ h.3, k.4 ∙ h.4, k.5 ∙ h.5)

  find_order-id :
      (id : ℕ) (orders : List Order) (o : Order) → find_order P id orders ≡ some o → o.id ≡ id
  unfolding find_order
  find_order-id id [] o e = cc
  find_order-id id (x ∷ orders) o e = elim (Bool-cases (x.id == id)) [
    | inl hit ↦ ground arith
    | inr miss ↦ find_order-id id orders o (ground arith)
  ]

  -- What is found rests under its id, which is located.
  get_order-located :
      (b : Book P) (id : ℕ) (o : Order)
      → get_order P b id ≡ some o
      → (o.id ≡ id) × (contains id b.order_locations ≡ true)
  unfolding get_order
  get_order-located b id o found = of_location (lookup id b.order_locations) refl found
    where
      of_level :
          (level : Option P.Level)
          → (elim level as (λ _. Option Order) [
            | none ↦ none
            | some level ↦ find_order P id (P.snapshot_by_seq level)
          ])
            ≡ some o
          → o.id ≡ id
      of_level none e = cc
      of_level (some level) e = find_order-id id (P.snapshot_by_seq level) o e

      of_location :
          (location : Option (ℕ × Side))
          → lookup id b.order_locations ≡ location
          → (elim location as (λ _. Option Order) [
            | none ↦ none
            | some (price, side) ↦ elim (lookup price (side_levels b side)) as (λ _. Option Order) [
              | none ↦ none
              | some level ↦ find_order P id (P.snapshot_by_seq level)
            ]
          ])
            ≡ some o
          → (o.id ≡ id) × (contains id b.order_locations ≡ true)
      of_location none at e = cc
      of_location (some (price, side)) at e =
          (of_level (lookup price (side_levels b side)) e, ground arith)

module _ (P : PriceLevels) (start : Book P) (N V R : Type 0) where
  -- What holds of an update that does nothing, of one that is carried out, and of one that is refused
  -- with its order gone; any other refusal leaves the book as it was.
  abbrev pub Outcome : ℕ → Result BookError (Option Order) × Book P → Type 0
  Outcome id (ok none, b) = N
  Outcome id (ok (some o), b) = V
  Outcome id (err e, b) = IsUntouched P start b ⊎ ((lookup id b.order_locations ≡ none) × R)

  then_in-Outcome :
      {A : Type 0} (id : ℕ) (r : Result BookError A × Book P)
      (f : A → Book P → Result BookError (Option Order) × Book P)
      → IsUntouched P start r.1
      → ((a : A) (b : Book P) → r ≡ (ok a, b) → IsUntouched P start b → Outcome id (f a b))
      → Outcome id (r then_in f)
  unfolding ◌then_in◌
  then_in-Outcome id (ok a, b) f h k = k a b refl h
  then_in-Outcome id (err e, b) f h k = inl h

  lookup-erase_self : {V : Type 0} (id : ℕ) (m : Map V) → lookup id (erase id m) ≡ none
  lookup-erase_self id m = ground (arith, lookup-erase id id m)

  module _ (id : ℕ) (new : Order) (same_id : new.id ≡ id) where
    -- The re-add under an id that is still located is refused, and touches nothing.
    duplicate-Outcome :
        (b : Book P)
        → IsUntouched P start b
        → contains id b.order_locations ≡ true
        → Outcome id (answer P (add_order_inner P b new false))
    duplicate-Outcome b h here = of_result (add_order_inner P b new false) (
        add_order_inner-duplicate P b new false
          (subst (λ i. contains i b.order_locations ≡ true) (sym same_id) here))
      where
        of_result :
            (r : Result BookError (Answer P) × Book P)
            → (is_ok r.0 ≡ false)
              × (r.1.bids ≡ b.bids)
              × (r.1.asks ≡ b.asks)
              × (r.1.order_locations ≡ b.order_locations)
              × (r.1.user_orders ≡ b.user_orders)
              × (r.1.risk_state.orders ≡ b.risk_state.orders)
              × (r.1.risk_state.counters ≡ b.risk_state.counters)
            → Outcome id (answer P r)
        of_result (ok a, b') d = cc
        of_result (err e, b') d =
            inl (IsUntouched-trans P start b b' h (d.1, d.2, d.3, d.4, d.5, d.6))

    gone-Outcome :
        (b : Book P)
        → lookup id b.order_locations ≡ none
        → V × R
        → Outcome id (answer P (add_order_inner P b new false))
    gone-Outcome b h vetted =
        of_result (add_order_inner P b new false) (add_order_inner-gone P id b new false h)
      where
        of_result :
            (r : Result BookError (Answer P) × Book P)
            → IsGoneOnRefusal P id r
            → Outcome id (answer P r)
        of_result (ok (o, report), b') d = vetted.0
        of_result (err e, b') d = inr (d, vetted.1)

    cancel_and_add-Outcome :
        (b : Book P)
        → IsUntouched P start b
        → contains id b.order_locations ≡ true
        → V × R
        → Outcome id (cancel_and_add P b id new)
    unfolding cancel_and_add strike emit_level_change
    cancel_and_add-Outcome b h here vetted =
        cancel_cases P (λ r. Outcome id (answer P (add_order_inner P r.1 new false))) b id
          CancelReason.user_requested
          (duplicate-Outcome (record b { cache = invalidate b.cache }) h here)
          (λ price side level level' o located standing taken.
            gone-Outcome _ (lookup-erase_self id b.order_locations) vetted)

    resubmit-Outcome :
        (b : Book P)
        → contains id start.order_locations ≡ true
        → IsUntouched P start b
        → (IsCleared P b id new → V × R)
        → Outcome id (resubmit P b id new)
    unfolding resubmit
    resubmit-Outcome b here h pass =
        then_in-Outcome id (check_modify P b id new) _ (check_modify-IsUntouched P start id new b h)
          (λ _ b' passed h'.
            cancel_and_add-Outcome b' h' (subst (λ m. contains id m ≡ true) (sym h'.2) here)
              (pass (check_modify-IsCleared P b id new passed)))

  pub modify_found-Outcome :
      (b : Book P) (id : ℕ) (change : Order → Order)
      → ((o : Order) → o.id ≡ id → (change o).id ≡ id)
      → IsUntouched P start b
      → (get_order P b id ≡ none → N)
      → ((o : Order) → get_order P b id ≡ some o → IsCleared P b id (change o) → V × R)
      → Outcome id (modify_found P b id change)
  unfolding modify_found
  modify_found-Outcome b id change named h missing pass =
      option_cases (Outcome id) (get_order P b id) _ _ missing (λ o found.
        let (same, here) = get_order-located P b id o found in
        resubmit-Outcome id (change o) (named o same) b (subst (λ m. contains id m ≡ true) h.2 here)
          h (pass o found))

  apply_quantity-Outcome :
      (b : Book P) (id price : ℕ) (side : Side) (level : P.Level)
      (r : Result String (Option Order × P.Level))
      → IsUntouched P start b
      → N
      → V
      → Outcome id (apply_quantity P b id price side level r)
  unfolding apply_quantity
  apply_quantity-Outcome b id price side level (err e) h n v = inl h
  apply_quantity-Outcome b id price side level (ok (none, level')) h n v = n
  apply_quantity-Outcome b id price side level (ok (some o, level')) h n v = v

  pub update_at-Outcome :
      (b : Book P) (id quantity price : ℕ) (side : Side) (level : P.Level)
      → IsUntouched P start b
      → N
      → ((o : Order) (b₂ : Book P)
          → find_order P id (P.snapshot_by_seq level) ≡ some o
          → Passes P b id (P.with_reduced_quantity o quantity) price b₂
          → V)
      → Outcome id (update_at P b id quantity price side level)
  unfolding update_at
  update_at-Outcome b id quantity price side level h n pass =
      option_cases (Outcome id) (find_order P id (P.snapshot_by_seq level)) _ _ (λ _. n)
        (λ current found.
          let projected = P.with_reduced_quantity current quantity in
          then_in-Outcome id _ _
            (then_in-IsUntouched P start _ _ (validate-IsUntouched P start b projected h) (λ _ b h.
              check_risk_modify-IsUntouched P start b id projected.user_id price
                (total_quantity projected.kind) h))
            (λ _ b₂ passed h.
              apply_quantity-Outcome b₂ id price side level (P.update_quantity level id quantity) h
                n (pass current b₂ found (then_in-Passes P b id projected price passed))))
