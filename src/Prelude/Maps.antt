-- ===== src/Prelude/Maps.antt =====
-- A concurrent map (`DashMap`) as an association list over numeric keys. The order of the list is
-- no part of what the program sees.
use Prim.Native.Nat.{ℕ, ◌+◌}
use mathlib.Core.Path.{◌≡◌, refl, subst}
use mathlib.Core.Logic.{inl, inr}
use mathlib.Core.Bool.{Bool, true, false}
use mathlib.Core.List.{List, [], ◌∷◌, map}
use mathlib.Core.Option.{Option, none, some}
use native.Mathlib.Omega.{arith}
use order_book_rs.Prelude.Tests.{ltb, ==_iff, Bool-cases, ◌==◌, if◌then◌else◌}

abbrev pub Map {ℓ} : Type ℓ → Type ℓ
Map V = List (ℕ × V)

-- The keys, in order.
abbrev pub keys {ℓ} : {V : Type ℓ} → Map V → List ℕ
keys {V} = map (λ (e : ℕ × V). e.0)

module _ {ℓ} {V : Type ℓ} where
  -- `get`
  abbrev pub lookup : ℕ → Map V → Option V
  lookup k [] = none
  lookup k ((j, v) ∷ m) = if j == k then some v else lookup k m

  -- `remove`
  abbrev pub erase : ℕ → Map V → Map V
  erase k [] = []
  erase k ((j, v) ∷ m) = if j == k then erase k m else (j, v) ∷ erase k m

  -- `insert`
  abbrev pub insert : ℕ → V → Map V → Map V
  insert k v m = (k, v) ∷ erase k m

  -- The entry of a sorted map at a key, put there or replaced.
  abbrev pub upsert : ℕ → V → Map V → Map V
  upsert k v [] = (k, v) ∷ []
  upsert k v ((j, w) ∷ m) =
      let rest = upsert k v m in
      if k == j then (k, v) ∷ m else if ltb k j then (k, v) ∷ (j, w) ∷ m else (j, w) ∷ rest

  -- A value put in the place of the one at a key that is there.
  abbrev pub replace : ℕ → V → Map V → Map V
  replace k v [] = []
  replace k v ((j, w) ∷ m) = if j == k then (j, v) ∷ m else (j, w) ∷ replace k v m

  abbrev pub contains : ℕ → Map V → Bool
  contains k m = elim (lookup k m) [ none ↦ false | some _ ↦ true ]

  -- No key is listed twice.
  abbrev pub IsDistinct : Map V → Type ℓ
  IsDistinct [] = Unit
  IsDistinct ((k, v) ∷ m) = (lookup k m ≡ none) × IsDistinct m

  pub lookup-erase :
      (k j : ℕ) (m : Map V) → lookup j (erase k m) ≡ (if k == j then none else lookup j m)
  lookup-erase k j [] = ground arith
  lookup-erase k j ((i, w) ∷ m) = ground (arith, lookup-erase k j m)

  pub lookup-insert :
      (k j : ℕ) (v : V) (m : Map V)
      → lookup j (insert k v m) ≡ (if k == j then some v else lookup j m)
  lookup-insert k j v m = ground (arith, lookup-erase k j m)

  pub erase-IsDistinct : (k : ℕ) (m : Map V) → IsDistinct m → IsDistinct (erase k m)
  erase-IsDistinct k [] d = tt
  erase-IsDistinct k ((i, w) ∷ m) d = ground (arith, erase-IsDistinct k m d.1, lookup-erase k i m)

  pub insert-IsDistinct : (k : ℕ) (v : V) (m : Map V) → IsDistinct m → IsDistinct (insert k v m)
  insert-IsDistinct k v m d = (lookup_erased, erase-IsDistinct k m d)
    where
      lookup_erased : lookup k (erase k m) ≡ none
      lookup_erased = ground (arith, lookup-erase k k m)

  pub erase_missing : (k : ℕ) (m : Map V) → lookup k m ≡ none → erase k m ≡ m
  erase_missing k [] h = refl
  erase_missing k ((i, w) ∷ m) h = ground (arith, erase_missing k m)

-- The sum of a weight over the values of a map.
module _ {ℓ} {V : Type ℓ} (weight : V → ℕ) where
  abbrev pub total : Map V → ℕ
  total [] = 0
  total ((k, v) ∷ m) = weight v + total m

  -- What a key holds, by its weight.
  abbrev pub weight_at : Option V → ℕ
  weight_at none = 0
  weight_at (some v) = weight v

  pub total-erase :
      (k : ℕ) (m : Map V) → IsDistinct m → total m ≡ weight_at (lookup k m) + total (erase k m)
  total-erase k [] d = omega arith
  total-erase k ((i, w) ∷ m) d = elim (Bool-cases (i == k)) [
    | inl hit ↦
        let gone : lookup k m ≡ none = subst (λ j. lookup j m ≡ none) ((==_iff i k).0 hit) d.0 in
        rw hit (rw (erase_missing k m gone))
    | inr miss ↦ rw miss (omega (arith, total-erase k m d.1))
  ]

  pub total-insert :
      (k : ℕ) (v : V) (m : Map V)
      → IsDistinct m
      → total (insert k v m) + weight_at (lookup k m) ≡ weight v + total m
  total-insert k v m d = omega (arith, total-erase k m d)
