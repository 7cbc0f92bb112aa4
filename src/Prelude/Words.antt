-- ===== src/Prelude/Words.antt =====
-- Unsigned machine words as native numbers: the bounds and the saturating operations of Rust's
-- `u64` and `u128`.
use Prim.Native.Nat.{ℕ, ◌+◌, ◌-◌, ◌*◌, ◌^◌, min}

abbrev pub u32_max : ℕ
u32_max = 2 ^ 32 - 1

abbrev pub u64_max : ℕ
u64_max = 2 ^ 64 - 1

abbrev pub u128_max : ℕ
u128_max = 2 ^ 128 - 1

-- `i128::MAX`
abbrev pub i128_max : ℕ
i128_max = 2 ^ 127 - 1

-- `saturating_add` at the type whose greatest value is `top`.
abbrev pub sat_add : ℕ → ℕ → ℕ → ℕ
sat_add top a b = min (a + b) top

-- `saturating_mul`
abbrev pub sat_mul : ℕ → ℕ → ℕ → ℕ
sat_mul top a b = min (a * b) top
