-- ===== src/Layout.antt =====
-- The layout of the two sides of a book: every level stands at its own price, and the prices ascend.
-- The sides are skip maps in src/orderbook/book.rs, which have this of their keys; that a level stands at
-- its own price is the engine's doing.
pub mod Cancels
pub mod Updates
use mathlib.Core.List.{reverse, reverse_aux, reverse-reverse}
use order_book_rs.Prelude.{
  ℕ, ◌<◌, ◌≡◌, refl, sym, ap, ◌∙◌, subst, List, [], ◌∷◌, ◌==◌, ltb, if◌then◌else◌, if_cases, All,
  All-map, map, arith, true,
}
use order_book_rs.Prelude.Maps.{Map, keys, erase, upsert, replace}
use order_book_rs.Types.{Side}
use order_book_rs.PriceLevel.{PriceLevels}
use order_book_rs.Book.{Book, side_levels, put_side}
use order_book_rs.Matching.Submit.{best_first, erase_all}
use order_book_rs.Cancel.Effects.{IsKeyed, erase-IsKeyed, replace-IsKeyed}

abbrev pub IsAscending : List ℕ → Type 0
IsAscending [] = Unit
IsAscending (x ∷ xs) = All (λ y. x < y) xs × IsAscending xs

best_first_twice : (side : Side) (ks : List ℕ) → best_first side (best_first side ks) ≡ ks
unfolding best_first
best_first_twice Side.buy ks = refl
best_first_twice Side.sell ks = reverse-reverse ks

module _ {ℓ} {V : Type ℓ} where
  All-keys-erase : (Q : ℕ → Type 0) (k : ℕ) (m : Map V) → All Q (keys m) → All Q (keys (erase k m))
  All-keys-erase Q k [] h = tt
  All-keys-erase Q k ((j, v) ∷ m) (h, hs) =
      if_cases (λ (m : Map V). All Q (keys m)) (j == k) _ _ (λ _. All-keys-erase Q k m hs)
        (λ _. (h, All-keys-erase Q k m hs))

  pub erase-IsAscending :
      (k : ℕ) (m : Map V) → IsAscending (keys m) → IsAscending (keys (erase k m))
  erase-IsAscending k [] h = tt
  erase-IsAscending k ((j, v) ∷ m) (h, hs) =
      if_cases (λ (m : Map V). IsAscending (keys m)) (j == k) _ _ (λ _. erase-IsAscending k m hs)
        (λ _. (All-keys-erase (λ y. j < y) k m h, erase-IsAscending k m hs))

  pub erase_all-IsAscending :
      (ks : List ℕ) (m : Map V) → IsAscending (keys m) → IsAscending (keys (erase_all ks m))
  erase_all-IsAscending [] m h = h
  erase_all-IsAscending (k ∷ ks) m h =
      erase_all-IsAscending ks (erase k m) (erase-IsAscending k m h)

  keys-replace : (k : ℕ) (v : V) (m : Map V) → keys (replace k v m) ≡ keys m
  keys-replace k v [] = refl
  keys-replace k v ((j, w) ∷ m) =
      if_cases (λ (m' : Map V). keys m' ≡ j ∷ keys m) (j == k) _ _ (λ _. refl)
        (λ _. ap (λ ks. j ∷ ks) (keys-replace k v m))

  pub replace-IsAscending :
      (k : ℕ) (v : V) (m : Map V) → IsAscending (keys m) → IsAscending (keys (replace k v m))
  replace-IsAscending k v m h = subst IsAscending (sym (keys-replace k v m)) h

  All-keys-upsert :
      (Q : ℕ → Type 0) (k : ℕ) (v : V) (m : Map V)
      → Q k
      → All Q (keys m)
      → All Q (keys (upsert k v m))
  All-keys-upsert Q k v [] q h = (q, tt)
  All-keys-upsert Q k v ((j, w) ∷ m) q (h, hs) =
      if_cases (λ (m : Map V). All Q (keys m)) (k == j) _ _ (λ _. (q, hs))
        (λ _.
          if_cases (λ (m : Map V). All Q (keys m)) (ltb k j) _ _ (λ _. (q, (h, hs)))
            (λ _. (h, All-keys-upsert Q k v m q hs)))

  pub upsert-IsAscending :
      (k : ℕ) (v : V) (m : Map V) → IsAscending (keys m) → IsAscending (keys (upsert k v m))
  upsert-IsAscending k v [] h = (tt, tt)
  upsert-IsAscending k v ((j, w) ∷ m) (h, hs) =
      if_cases (λ (m : Map V). IsAscending (keys m)) (k == j) _ _
        (λ same. (subst (λ i. All (λ y. i < y) (keys m)) (same_key same) h, hs))
        (λ other.
          if_cases (λ (m : Map V). IsAscending (keys m)) (ltb k j) _ _
            (λ lt. (
              (ground arith, All-map (λ y. j < y) (λ y. k < y) (λ y p. below lt p) (keys m) h),
              (h, hs),
            ))
            (λ ge.
              (All-keys-upsert (λ y. j < y) k v m (ground arith) h, upsert-IsAscending k v m hs)))
    where
      same_key : (k == j) ≡ true → j ≡ k
      same_key e = ground arith

      below : {y : ℕ} → ltb k j ≡ true → j < y → k < y
      below lt p = ground arith

  keys-reverse_aux : (m n : Map V) → keys (reverse_aux m n) ≡ reverse_aux (keys m) (keys n)
  keys-reverse_aux [] n = refl
  keys-reverse_aux (e ∷ m) n = keys-reverse_aux m (e ∷ n)

  keys-best_first : (side : Side) (m : Map V) → keys (best_first side m) ≡ best_first side (keys m)
  unfolding best_first
  keys-best_first Side.buy m = refl
  keys-best_first Side.sell m = keys-reverse_aux m []

  -- A walk that starts from a side turned round, and keeps its prices, gives back the prices.
  pub keys-walked :
      (side : Side) (m walked : Map V)
      → keys walked ≡ keys (best_first side m)
      → keys (best_first side walked) ≡ keys m
  keys-walked side m walked e =
      keys-best_first side walked
      ∙ (ap (best_first side) (e ∙ keys-best_first side m) ∙ best_first_twice side (keys m))

module _ (P : PriceLevels) where
  open P use {Level, level_price}

  pub record IsSide (levels : Map Level) : Type 0 where
    pub keyed : IsKeyed P levels
    pub ascending : IsAscending (keys levels)

  pub record IsLaidOut (b : Book P) : Type 0 where
    pub bid_side : IsSide b.bids
    pub ask_side : IsSide b.asks

  pub erase-IsSide : (price : ℕ) (m : Map Level) → IsSide m → IsSide (erase price m)
  erase-IsSide price m s = record {
    keyed = erase-IsKeyed P price m s.keyed;
    ascending = erase-IsAscending price m s.ascending;
  }

  pub erase_all-IsSide : (prices : List ℕ) (m : Map Level) → IsSide m → IsSide (erase_all prices m)
  erase_all-IsSide [] m s = s
  erase_all-IsSide (price ∷ prices) m s =
      erase_all-IsSide prices (erase price m) (erase-IsSide price m s)

  pub replace-IsSide :
      (price : ℕ) (level : Level) (m : Map Level)
      → level_price level ≡ price
      → IsSide m
      → IsSide (replace price level m)
  replace-IsSide price level m e s = record {
    keyed = replace-IsKeyed P price level m e s.keyed;
    ascending = replace-IsAscending price level m s.ascending;
  }

  upsert-IsKeyed :
      (price : ℕ) (level : Level) (m : Map Level)
      → level_price level ≡ price
      → IsKeyed P m
      → IsKeyed P (upsert price level m)
  upsert-IsKeyed price level [] e h = (e, tt)
  upsert-IsKeyed price level ((j, l) ∷ m) e (h, hs) =
      if_cases (IsKeyed P) (price == j) _ _ (λ _. (e, hs))
        (λ _.
          if_cases (IsKeyed P) (ltb price j) _ _ (λ _. (e, (h, hs)))
            (λ _. (h, upsert-IsKeyed price level m e hs)))

  pub upsert-IsSide :
      (price : ℕ) (level : Level) (m : Map Level)
      → level_price level ≡ price
      → IsSide m
      → IsSide (upsert price level m)
  upsert-IsSide price level m e s = record {
    keyed = upsert-IsKeyed price level m e s.keyed;
    ascending = upsert-IsAscending price level m s.ascending;
  }

  pub side_levels-IsSide : (b : Book P) (side : Side) → IsLaidOut b → IsSide (side_levels b side)
  side_levels-IsSide b Side.buy h = h.bid_side
  side_levels-IsSide b Side.sell h = h.ask_side

  pub put_side-IsLaidOut :
      (b : Book P) (side : Side) (m : Map Level)
      → IsSide m
      → IsLaidOut b
      → IsLaidOut (put_side b side m)
  put_side-IsLaidOut b Side.buy m s h = record { bid_side = s; ask_side = h.ask_side }
  put_side-IsLaidOut b Side.sell m s h = record { bid_side = h.bid_side; ask_side = s }

  -- A book with the sides of another.
  pub same_sides-IsLaidOut :
      (b b' : Book P) → b'.bids ≡ b.bids → b'.asks ≡ b.asks → IsLaidOut b → IsLaidOut b'
  same_sides-IsLaidOut b b' p q h = record {
    bid_side = subst IsSide (sym p) h.bid_side;
    ask_side = subst IsSide (sym q) h.ask_side;
  }
