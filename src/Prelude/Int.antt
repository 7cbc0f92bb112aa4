-- ===== src/Prelude/Int.antt =====
-- Signed integers over the native numbers, as far as the program uses them: a sign and a magnitude.
use Prim.Native.Nat.{ℕ, zero, suc}
use mathlib.Core.Path.{◌≡◌, refl}
use mathlib.Core.Bool.{Bool, true, false}

-- `negsuc n` is -(n + 1).
pub data ℤ : Type 0 where
  pos : ℕ → ℤ
  negsuc : ℕ → ℤ

-- `unsigned_abs`
abbrev pub nat_abs : ℤ → ℕ
nat_abs (pos n) = n
nat_abs (negsuc n) = suc n

-- The negation of a magnitude.
abbrev pub neg_of_ℕ : ℕ → ℤ
neg_of_ℕ zero = pos 0
neg_of_ℕ (suc n) = negsuc n

abbrev pub neg : ℤ → ℤ
neg (pos n) = neg_of_ℕ n
neg (negsuc n) = pos (suc n)

-- `z < 0`
abbrev pub is_neg : ℤ → Bool
is_neg (pos n) = false
is_neg (negsuc n) = true

pub nat_abs-neg_of_ℕ : (n : ℕ) → nat_abs (neg_of_ℕ n) ≡ n
nat_abs-neg_of_ℕ zero = refl
nat_abs-neg_of_ℕ (suc n) = refl
