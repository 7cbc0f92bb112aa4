-- ===== src/Matching/Effects/Levels.antt =====
-- A fact of every level that neither a match nor a cancel takes away holds after the walk, and the walk
-- leaves the prices of a side as they are.
use order_book_rs.Prelude.{ℕ, ◌≡◌, refl, ap, [], ◌∷◌, ◌==◌, if_cases, ltb, min, All}
use order_book_rs.Prelude.Maps.{Map, keys}
use order_book_rs.Types.{opposite, is_post_only, TakerKind}
use order_book_rs.Error.{StpMode}
use order_book_rs.OrderState.{CancelReason}
use order_book_rs.PriceLevel.{PriceLevels}
use order_book_rs.Stp.{StpAction, check_stp_at_level}
use order_book_rs.Matching.Budget.{level_qty_cap, is_done}
use order_book_rs.Matching.Level.{Sweep, Taker, execute, cancel_own_makers}
use order_book_rs.Matching.Walk.{
  Round, break, continue, beyond_limit, probe, match_level, match_safe, act, round, walk,
}
use order_book_rs.Matching.Conserve.Rule.{IsKept, cancel_resting_maker-Good, cancel_own_makers-Good}

abbrev pub level_of : {P : PriceLevels} → Round P → P.Level
level_of (break level w) = level
level_of (continue level w) = level

module _ (P : PriceLevels) where
  open P use {Level, order_count, visible_quantity, snapshot_by_seq, match_order, was_rejected}

  abbrev pub IsMatchKept : (Level → Type 0) → Type 0
  IsMatchKept Good =
      (l : Level) (q id : ℕ) (k : TakerKind) (ts gen : ℕ)
      → Good l
      → Good (match_order l q id k ts gen).1

  module _ (Good : Level → Type 0) (matched : IsMatchKept Good) (kept : IsKept P Good) (k : Taker)
      (price : ℕ) where
    execute-Good :
        (qty : ℕ) (level : Level) (w : Sweep P)
        → Good level
        → Good (execute P k price qty level w).0
    unfolding execute
    execute-Good qty level w g = matched level qty k.order_id k.kind k.timestamp w.book.generator g

    match_level-Good :
        (cap : ℕ) (level : Level) (w : Sweep P)
        → Good level
        → Good (level_of (match_level P k price cap level w))
    unfolding match_level
    match_level-Good cap level w g =
        if_cases (λ (r : Round P). Good (level_of r))
          (is_done (execute P k price cap level w).1.stop) _ _ (λ _. execute-Good cap level w g)
          (λ _. execute-Good cap level w g)

    match_safe-Good :
        (cap safe : ℕ) (level : Level) (w : Sweep P)
        → Good level
        → Good (match_safe P k price cap safe level w).0
    unfolding match_safe
    match_safe-Good cap safe level w g =
        if_cases (λ (r : Level × Sweep P). Good r.0) (ltb 0 safe) _ _
          (λ _.
            if_cases (λ (r : Level × Sweep P). Good r.0) (ltb 0 (min cap safe)) _ _
              (λ _. execute-Good (min cap safe) level w g) (λ _. g))
          (λ _. g)

    act-Good :
        (cap : ℕ) (action : StpAction) (level : Level) (w : Sweep P)
        → Good level
        → Good (level_of (act P k price cap action level w))
    unfolding act
    act-Good cap StpAction.no_conflict level w g = match_level-Good cap level w g
    act-Good cap (StpAction.cancel_taker safe) level w g = match_safe-Good cap safe level w g
    act-Good cap StpAction.cancel_maker level w g =
        let orders = snapshot_by_seq level in
        let (level', b) = cancel_own_makers P orders k.user_id (opposite k.side) level w.book in
        let g' : Good level' =
          cancel_own_makers-Good P Good kept orders k.user_id (opposite k.side) level w.book g in
        if_cases (λ (r : Round P). Good (level_of r)) (order_count level' == 0) _ _ (λ _. g')
          (λ _. match_level-Good cap level' (record w { book = b }) g')
    act-Good cap (StpAction.cancel_both safe maker) level w g =
        let (level', w') = match_safe P k price cap safe level w in
        cancel_resting_maker-Good P Good kept level' (opposite k.side) maker
          CancelReason.self_trade_prevention w'.book (match_safe-Good cap safe level w g)

    probe-Good :
        (cap : ℕ) (level : Level) (w : Sweep P)
        → Good level
        → Good (level_of (probe P k cap level w))
    unfolding probe
    probe-Good cap level w g =
        let m = match_order level cap k.order_id k.kind k.timestamp w.book.generator in
        let g' : Good m.1 = matched level cap k.order_id k.kind k.timestamp w.book.generator g in
        if_cases (λ (r : Round P). Good (level_of r)) (was_rejected m.0) _ _ (λ _. g') (λ _. g')

    round-Good :
        (mode : StpMode) (level : Level) (w : Sweep P)
        → Good level
        → Good (level_of (round P mode k price level w))
    unfolding round
    round-Good mode level w g =
        let cap = level_qty_cap w.stop price k.lot in
        if_cases (λ (r : Round P). Good (level_of r)) (beyond_limit k.side k.limit price) _ _
          (λ _. g)
          (λ _.
            if_cases (λ (r : Round P). Good (level_of r)) (cap == 0) _ _ (λ _. g)
              (λ _.
                if_cases (λ (r : Round P). Good (level_of r)) (is_post_only k.kind) _ _
                  (λ _. probe-Good cap level w g)
                  (λ _.
                    if_cases (λ (r : Round P). Good (level_of r)) k.stp_active _ _
                      (λ _.
                        act-Good cap
                          (check_stp_at_level visible_quantity (snapshot_by_seq level) k.user_id
                            mode)
                          level w g)
                      (λ _. match_level-Good cap level w g))))

  -- Every level has the fact of its price.
  abbrev pub Each : (ℕ → Level → Type 0) → Map Level → Type 0
  Each Good levels = All (λ (e : ℕ × Level). Good e.0 e.1) levels

  module _ (Good : ℕ → Level → Type 0) (matched : (p : ℕ) → IsMatchKept (Good p))
      (kept : (p : ℕ) → IsKept P (Good p)) (mode : StpMode) (k : Taker) where
    pub walk-Each :
        (levels : Map Level) (w : Sweep P) → Each Good levels → Each Good (walk P mode k levels w).0
    unfolding walk
    walk-Each [] w gs = tt
    walk-Each ((price, level) ∷ levels) w (g, gs) =
        after (round P mode k price level w)
          (round-Good (Good price) (matched price) (kept price) k price mode level w g)
          (λ w'. walk-Each levels w' gs)
      where
        after :
            (r : Round P)
            → Good price (level_of r)
            → ((w : Sweep P) → Each Good (walk P mode k levels w).0)
            → Each Good
                (elim r as (λ _. Map Level × Sweep P) [
                  | break level' w' ↦ ((price, level') ∷ levels, w')
                  | continue level' w' ↦
                      let (levels', w'') = walk P mode k levels w' in
                      ((price, level') ∷ levels', w'')
                ]).0
        after (break level' w') g' rest = (g', gs)
        after (continue level' w') g' rest = (g', rest w')

  pub keys-walk :
      (mode : StpMode) (k : Taker) (levels : Map Level) (w : Sweep P)
      → keys (walk P mode k levels w).0 ≡ keys levels
  unfolding walk
  keys-walk mode k [] w = refl
  keys-walk mode k ((price, level) ∷ levels) w =
      after (round P mode k price level w) (λ w'. keys-walk mode k levels w')
    where
      after :
          (r : Round P)
          → ((w : Sweep P) → keys (walk P mode k levels w).0 ≡ keys levels)
          → keys
              (elim r as (λ _. Map Level × Sweep P) [
                | break level' w' ↦ ((price, level') ∷ levels, w')
                | continue level' w' ↦
                    let (levels', w'') = walk P mode k levels w' in ((price, level') ∷ levels', w'')
              ]).0
            ≡ price ∷ keys levels
      after (break level' w') rest = refl
      after (continue level' w') rest = ap (λ ks. price ∷ ks) (rest w')
