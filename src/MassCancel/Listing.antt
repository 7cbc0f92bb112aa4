-- ===== src/MassCancel/Listing.antt =====
-- What the lists of resting orders hold (`collect_order_ids`), level by level.
use order_book_rs.Prelude.{
  ℕ, suc, ◌≡◌, refl, ap, inl, inr, Bool, true, ◌||◌, List, [], ◌∷◌, ◌++◌, map, length, any, keep,
  ◌==◌, arith, All, Any, All-map, All-append, sum_of, length-append,
}
use order_book_rs.Prelude.Maps.{Map}
use order_book_rs.Types.{Order}
use order_book_rs.PriceLevel.{PriceLevels}
use order_book_rs.MassCancel.{collect_order_ids, collect_ids}

abbrev pub lists : ℕ → List ℕ → Bool
lists j = any (λ i. i == j)

pub lists-append : (j : ℕ) (xs ys : List ℕ) → lists j (xs ++ ys) ≡ (lists j xs || lists j ys)
lists-append j [] ys = refl
lists-append j (x ∷ xs) ys = ground (arith, lists-append j xs ys)

-- The order's id is among the ids.
abbrev pub IsListed : List ℕ → Order → Type 0
IsListed ids o = lists o.id ids ≡ true

module _ (P : PriceLevels) where
  -- Every order of some levels passes a test.
  abbrev pub AllOrders : (Order → Type 0) → Map P.Level → Type 0
  AllOrders Q = All (λ (e : ℕ × P.Level). All Q (P.snapshot_by_seq e.1))

  -- The number of orders of some levels.
  abbrev pub order_total : Map P.Level → ℕ
  order_total = sum_of (λ (e : ℕ × P.Level). length (P.snapshot_by_seq e.1))

  -- No level has an order.
  abbrev pub IsDrained : Map P.Level → Type 0
  IsDrained = All (λ (e : ℕ × P.Level). P.snapshot_by_seq e.1 ≡ [])

  -- An order of the id is at one of the levels.
  abbrev pub IsResting : Map P.Level → ℕ → Type 0
  IsResting levels id =
      Any (λ (e : ℕ × P.Level). Any (λ (o : Order). o.id ≡ id) (P.snapshot_by_seq e.1)) levels

  -- What `collect_ids` takes from a level when it takes every order.
  abbrev level_ids : List Order → List ℕ
  level_ids orders = map (λ (o : Order). o.id) (keep (λ o. true) orders)

  level_ids-length : (orders : List Order) → length (level_ids orders) ≡ length orders
  level_ids-length [] = refl
  level_ids-length (o ∷ orders) = ap suc (level_ids-length orders)

  level_ids-listed :
      (orders : List Order) (ids : List ℕ)
      → ((j : ℕ) → lists j (level_ids orders) ≡ true → lists j ids ≡ true)
      → All (λ (o : Order). lists o.id ids ≡ true) orders
  level_ids-listed [] ids sub = tt
  level_ids-listed (o ∷ orders) ids sub =
      (sub o.id (ground arith), level_ids-listed orders ids (λ j e. sub j (ground arith)))

  level_ids-resting :
      (orders : List Order) → All (λ id. Any (λ (o : Order). o.id ≡ id) orders) (level_ids orders)
  level_ids-resting [] = tt
  level_ids-resting (o ∷ orders) =
      (inl refl, All-map _ _ (λ id r. inr r) (level_ids orders) (level_ids-resting orders))

  pub collect_order_ids-listed :
      (levels : Map P.Level) (ids : List ℕ)
      → ((j : ℕ) → lists j (collect_order_ids P levels) ≡ true → lists j ids ≡ true)
      → AllOrders (λ o. lists o.id ids ≡ true) levels
  unfolding collect_order_ids collect_ids
  collect_order_ids-listed [] ids sub = tt
  collect_order_ids-listed ((price, level) ∷ levels) ids sub =
      let here = level_ids (P.snapshot_by_seq level) in
      let there = collect_order_ids P levels in
      (
        level_ids-listed (P.snapshot_by_seq level) ids
            (λ j e. sub j (ground (arith, lists-append j here there))),
        collect_order_ids-listed levels ids
            (λ j e. sub j (ground (arith, lists-append j here there))),
      )

  pub collect_order_ids-IsResting :
      (levels : Map P.Level) → All (IsResting levels) (collect_order_ids P levels)
  unfolding collect_order_ids collect_ids
  collect_order_ids-IsResting [] = tt
  collect_order_ids-IsResting ((price, level) ∷ levels) =
      All-append (IsResting ((price, level) ∷ levels)) (level_ids (P.snapshot_by_seq level)) _
        (All-map _ _ (λ id r. inl r) _ (level_ids-resting (P.snapshot_by_seq level)))
        (All-map _ _ (λ id r. inr r) _ (collect_order_ids-IsResting levels))

  pub collect_order_ids-total :
      (levels : Map P.Level) → length (collect_order_ids P levels) ≡ order_total levels
  unfolding collect_order_ids collect_ids
  collect_order_ids-total [] = refl
  collect_order_ids-total ((price, level) ∷ levels) =
      let orders = P.snapshot_by_seq level in
      omega (
        arith,
        length-append (level_ids orders) (collect_order_ids P levels),
        level_ids-length orders,
        collect_order_ids-total levels,
      )

  no_order : (orders : List Order) → length orders ≡ 0 → orders ≡ []
  no_order [] e = refl
  no_order (o ∷ orders) e = absurd (omega arith)

  pub total-IsDrained : (levels : Map P.Level) → order_total levels ≡ 0 → IsDrained levels
  total-IsDrained [] e = tt
  total-IsDrained ((price, level) ∷ levels) e =
      (no_order (P.snapshot_by_seq level) (omega arith), total-IsDrained levels (omega arith))
