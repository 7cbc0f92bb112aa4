-- ===== src/Repricing/Grid.antt =====
-- The grid of ticks: whole numbers of a step, and the roundings onto them (`/`, `div_ceil`).
use mathlib.Core.Bool.{true≢false}
use native.Mathlib.Nat.{
  div-add-mod, mod-lt, mul-mod_right, mul_comm, mul-suc, mul-le-mul_left, mul-le-mul_right,
  lt_of_mul-lt-mul_left, le-div_iff_mul-le, div-lt_iff_lt-mul, div-mul-le_self,
}
use order_book_rs.Prelude.{
  ℕ, zero, suc, ◌+◌, ◌*◌, ◌/◌, ◌%◌, ◌≤◌, ◌<◌, ◌≡◌, ◌≢◌, sym, ap, subst, ◌∙◌, false, arith, ◌==◌,
  if_cases,
}
use order_book_rs.Repricing.{div_ceil}

-- A whole number of ticks.
abbrev pub OnGrid : ℕ → ℕ → Type 0
OnGrid step p = (k : ℕ) × (p ≡ step * k)

-- Two whole numbers of ticks in order are at least one tick apart.
pub grid_gap : (step p q : ℕ) → OnGrid step p → OnGrid step q → p < q → p + step ≤ q
grid_gap step p q (i, e) (j, f) h =
    let order : i < j =
      lt_of_mul-lt-mul_left step (subst (λ x. x < step * j) e (subst (λ y. p < y) f h)) in
    let apart : step * suc i ≤ step * j = mul-le-mul_left step order in
    omega (arith, mul-suc step i)

pub grid_least : (step q : ℕ) → 1 ≤ q → OnGrid step q → step ≤ q
grid_least step q o (zero, e) = absurd (omega arith)
grid_least step q o (suc k, e) = omega (arith, mul-suc step k)

pub round_down_best : (step p q : ℕ) → 1 ≤ step → OnGrid step q → q ≤ p → q ≤ (p / step) * step
round_down_best step p q s (k, e) h =
    let below : k ≤ p / step = (le-div_iff_mul-le s).1 (omega (arith, mul_comm k step)) in
    omega (arith, mul-le-mul_right step below, mul_comm k step)

unaligned : (step k p : ℕ) → p ≡ step * k → (p % step == 0) ≡ false → ⊥
unaligned step k p d t =
    true≢false (sym (ap (λ x. x % step == 0) d ∙ ap (λ r. r == 0) (mul-mod_right step k)) ∙ t)

pub round_up_best : (step p q : ℕ) → 1 ≤ step → OnGrid step q → p ≤ q → div_ceil p step * step ≤ q
unfolding div_ceil
round_up_best step p q s (k, e) h =
    if_cases (λ c. c * step ≤ q) (p % step == 0) (p / step) (p / step + 1)
      (λ t. omega (arith, div-mul-le_self p step))
      (λ t.
        let apart : p ≢ step * k = λ d. unaligned step k p d t in
        let below : p / step < k = (div-lt_iff_lt-mul s).1 (omega (arith, mul_comm k step)) in
        omega (arith, mul-le-mul_right step below, mul_comm k step))

pub round_up_above : (step p : ℕ) → 1 ≤ step → p ≤ div_ceil p step * step
unfolding div_ceil
round_up_above step p s =
    if_cases (λ c. p ≤ c * step) (p % step == 0) (p / step) (p / step + 1)
      (λ t. ground (arith, div-add-mod p step, mul_comm step (p / step)))
      (λ t. omega (
        arith,
        div-add-mod p step,
        mod-lt p s,
        mul_comm step (p / step + 1),
        mul-suc step (p / step),
      ))
