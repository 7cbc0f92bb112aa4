-- ===== src/Matching/DryRun/Peek.antt =====
-- What `peek_match` counts: the depth of the levels within the limit, up to the quantity.
use native.Mathlib.Nat.{zero-add}
use order_book_rs.Prelude.{ℕ, ◌+◌, ◌-◌, ◌≤◌, ◌≡◌, Option, [], ◌∷◌, if◌then◌else◌, min, arith, subst}
use order_book_rs.Prelude.Words.{u64_max, sat_add}
use order_book_rs.Prelude.Maps.{Map}
use order_book_rs.Types.{Side, opposite}
use order_book_rs.PriceLevel.{PriceLevels}
use order_book_rs.Book.{Book, side_levels}
use order_book_rs.Matching.Walk.{beyond_limit}
use order_book_rs.Matching.Submit.{best_first, is_empty}
use order_book_rs.Matching.DryRun.{depth_of, peek, peek_match}

module _ (P : PriceLevels) where
  open P use {Level}

  -- The depth ahead of the first level beyond the limit.
  abbrev pub depth_within : Side → Option ℕ → Map Level → ℕ
  depth_within side limit [] = 0
  depth_within side limit ((price, level) ∷ levels) =
      if beyond_limit side limit price then 0 else depth_of P level + depth_within side limit levels

  peek-depth_within :
      (side : Side) (quantity : ℕ) (limit : Option ℕ) (levels : Map Level) (matched : ℕ)
      → matched ≤ quantity
      → quantity ≤ u64_max
      → peek P side quantity limit levels matched
        ≡ min quantity (matched + depth_within side limit levels)
  unfolding peek
  peek-depth_within side quantity limit [] matched h b = omega (arith, h)
  peek-depth_within side quantity limit ((price, level) ∷ levels) matched h b = ground (
    arith,
    peek-depth_within side quantity limit levels
        (sat_add u64_max matched (min (quantity - matched) (depth_of P level))),
  )

  -- The peek is the depth of the opposite side's levels up to the first beyond the limit, best price
  -- first, cut to the quantity. For quantities of 64 bits.
  pub peek_match-depth :
      (b : Book P) (side : Side) (quantity : ℕ) (limit : Option ℕ)
      → quantity ≤ u64_max
      → peek_match P b side quantity limit
        ≡ min quantity (depth_within side limit (best_first side (side_levels b (opposite side))))
  unfolding peek_match best_first
  peek_match-depth b side quantity limit h = over side (side_levels b (opposite side))
    where
      over :
          (side : Side) (levels : Map Level)
          → (if is_empty levels then 0 else peek P side quantity limit (best_first side levels) 0)
            ≡ min quantity (depth_within side limit (best_first side levels))
      over Side.buy [] = omega arith
      over Side.sell [] = omega arith
      over side (l ∷ levels) =
          subst (λ n. peek P side quantity limit (best_first side (l ∷ levels)) 0 ≡ min quantity n)
            (zero-add (depth_within side limit (best_first side (l ∷ levels))))
            (peek-depth_within side quantity limit (best_first side (l ∷ levels)) 0 (omega arith) h)
