-- ===== src/Modify/Gates.antt =====
-- The checks of an update (src/orderbook/modifications.rs, `check_modify`): they change nothing but the
-- tracker and the cache, and what it means to pass them.
use order_book_rs.Prelude.{ℕ, ◌≡◌, refl, ap, ◌∙◌, Option, option_cases}
use order_book_rs.Prelude.Maps.{lookup}
use order_book_rs.Prelude.Result.{Result, ok, err}
use order_book_rs.Types.{Order}
use order_book_rs.Error.{BookError}
use order_book_rs.PriceLevel.{PriceLevels}
use order_book_rs.Risk.{
  RiskState, RiskConfig, check_modify_admission, check_projected, check_price_band, then_band,
}
use order_book_rs.Book.{Book}
use order_book_rs.Orders.{total_quantity}
use order_book_rs.Queries.{check_risk_modify_admission, reference_of}
use order_book_rs.Submission.Steps.{
  check_price_band-keeps, check_limit_admission-keeps, IsUntouched, then_in-IsUntouched,
  validate-IsUntouched, reference_of-IsUntouched,
}
use order_book_rs.Submission.Shape.{◌then_in◌, validate_order_shape}
use order_book_rs.Modify.{check_modify, check_modify_stp_self_cross}

check_modify_admission-keeps :
    (s : RiskState) (id account price quantity : ℕ) (reference : Option ℕ)
    → let s' = (check_modify_admission s id account price quantity reference).1 in
      (s'.orders ≡ s.orders) × (s'.counters ≡ s.counters)
unfolding check_modify_admission
check_modify_admission-keeps s id account price quantity reference =
    option_cases Same s.config _ _ (λ _. (refl, refl))
      λ cfg _.
        option_cases Same (lookup id s.orders) _ _
          (λ _. check_limit_admission-keeps s account price quantity reference)
          (λ entry _. after_gates cfg (check_projected s cfg entry account price quantity))
  where
    Same : Result BookError (Unit {0}) × RiskState → Type 0
    Same r = (r.1.orders ≡ s.orders) × (r.1.counters ≡ s.counters)

    after_gates :
        (cfg : RiskConfig) (r : Result BookError (Unit {0}))
        → Same (then_band r s (check_price_band s cfg price reference))
    after_gates cfg (ok u) = check_price_band-keeps s cfg price reference
    after_gates cfg (err e) = (refl, refl)

module _ (P : PriceLevels) (start : Book P) where
  pub check_risk_modify-IsUntouched :
      (b : Book P) (id account price quantity : ℕ)
      → IsUntouched P start b
      → IsUntouched P start (check_risk_modify_admission P b id account price quantity).1
  unfolding check_risk_modify_admission
  check_risk_modify-IsUntouched b id account price quantity h =
      option_cases (λ (r : Result BookError (Unit {0}) × Book P). IsUntouched P start r.1)
        b.risk_state.config _ _ (λ _. h)
        λ cfg _.
          let (reference, b') = reference_of P b cfg.reference_price in
          let (bid, ask, loc, usr, os, cs) =
            reference_of-IsUntouched P start b cfg.reference_price h in
          let (o, c) =
            check_modify_admission-keeps b'.risk_state id account price quantity reference in
          (bid, ask, loc, usr, o ∙ os, c ∙ cs)

  pub check_modify-IsUntouched :
      (id : ℕ) (new : Order) (b : Book P)
      → IsUntouched P start b
      → IsUntouched P start (check_modify P b id new).1
  unfolding check_modify
  check_modify-IsUntouched id new b h =
      then_in-IsUntouched P start _ _
        (then_in-IsUntouched P start _ _ (validate-IsUntouched P start b new h) (λ _ b h.
          check_risk_modify-IsUntouched b id new.user_id new.price (total_quantity new.kind) h))
        (λ _ b h. h)

module _ (P : PriceLevels) where
  -- Both steps of a chain that succeeds have succeeded.
  pub then_in-ok :
      {A B : Type 0} (r : Result BookError A × Book P)
      (f : A → Book P → Result BookError B × Book P) {x : B} {b' : Book P}
      → (r then_in f) ≡ (ok x, b')
      → (a : A) × (b : Book P) × (r ≡ (ok a, b)) × (f a b ≡ (ok x, b'))
  unfolding ◌then_in◌
  then_in-ok (ok a, b) f e = (a, b, refl, e)
  then_in-ok (err x, b) f e = cc

  -- A new order passes the check of its shape on a book, and then the risk check at a price, which
  -- leaves the last book.
  abbrev pub Passes : Book P → ℕ → Order → ℕ → Book P → Type 0
  Passes b id new price b₂ =
      (b₁ : Book P) × (validate_order_shape P b new ≡ (ok tt, b₁))
      × (check_risk_modify_admission P b₁ id new.user_id price (total_quantity new.kind)
          ≡ (ok tt, b₂))

  -- It passes these and does not cross its account's own orders either.
  abbrev pub IsCleared : Book P → ℕ → Order → Type 0
  IsCleared b id new =
      (b₂ : Book P) × Passes b id new new.price b₂ × (check_modify_stp_self_cross P b₂ new ≡ ok tt)

  pub then_in-Passes :
      (b : Book P) (id : ℕ) (new : Order) (price : ℕ) {u : Unit {0}} {b₂ : Book P}
      → (validate_order_shape P b new then_in (λ _ b.
          check_risk_modify_admission P b id new.user_id price (total_quantity new.kind)))
        ≡ (ok u, b₂)
      → Passes b id new price b₂
  then_in-Passes b id new price e =
      let (a, b₁, shape, risk) = then_in-ok (validate_order_shape P b new) _ e in (b₁, shape, risk)

  pub check_modify-IsCleared :
      (b : Book P) (id : ℕ) (new : Order) {u : Unit {0}} {b' : Book P}
      → check_modify P b id new ≡ (ok u, b')
      → IsCleared b id new
  unfolding check_modify
  check_modify-IsCleared b id new e =
      let (a, b₂, checks, crossing) = then_in-ok _ _ e in
      (b₂, then_in-Passes b id new new.price checks, ap (λ r. r.0) crossing)
