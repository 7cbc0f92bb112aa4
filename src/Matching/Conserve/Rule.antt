-- ===== src/Matching/Conserve/Rule.antt =====
-- The rule by which a fact about the result and the budget is carried through a walk: it is enough
-- that an execution within the cap of a level, at a price that the limit allows, keeps it.
use order_book_rs.Prelude.{
  ℕ, ◌≤◌, ◌≡◌, false, some, option_cases, List, [], ◌∷◌, ◌==◌, if◌then◌else◌, if_cases, ltb, min,
  All, arith,
}
use order_book_rs.Prelude.Maps.{Map}
use order_book_rs.Types.{Side, opposite, is_post_only, Order}
use order_book_rs.Error.{StpMode}
use order_book_rs.OrderState.{CancelReason}
use order_book_rs.PriceLevel.{PriceLevels}
use order_book_rs.Stp.{StpAction, check_stp_at_level}
use order_book_rs.Book.{Book}
use order_book_rs.Matching.Budget.{StopCondition, level_qty_cap, is_done}
use order_book_rs.Matching.Level.{Sweep, Taker, execute, cancel_resting_maker, cancel_own_makers}
use order_book_rs.Matching.Walk.{
  Round, break, continue, beyond_limit, probe, match_level, match_safe, act, round, walk,
}

abbrev pub sweep_of : {P : PriceLevels} → Round P → Sweep P
sweep_of (break level w) = w
sweep_of (continue level w) = w

module _ (P : PriceLevels) (Good : P.Level → Type 0) where
  open P use {Level, cancel}

  -- A fact of a level that no cancel of an order takes away.
  abbrev pub IsKept : Type 0
  IsKept = (l l' : Level) (o : Order) (id : ℕ) → cancel l id ≡ some (o, l') → Good l → Good l'

  module _ (kept : IsKept) where
    pub cancel_resting_maker-Good :
        (l : Level) (side : Side) (id : ℕ) (reason : CancelReason) (b : Book P)
        → Good l
        → Good (cancel_resting_maker P l side id reason b).0
    unfolding cancel_resting_maker
    cancel_resting_maker-Good l side id reason b g =
        option_cases (λ (r : Level × Book P). Good r.0) (cancel l id) _ _ (λ _. g)
          (λ (o, l') e. kept l l' o id e g)

    pub cancel_own_makers-Good :
        (orders : List Order) (user : ℕ) (side : Side) (l : Level) (b : Book P)
        → Good l
        → Good (cancel_own_makers P orders user side l b).0
    unfolding cancel_own_makers
    cancel_own_makers-Good [] user side l b g = g
    cancel_own_makers-Good (o ∷ orders) user side l b g =
        let reason = CancelReason.self_trade_prevention in
        let step : Level × Book P =
          if o.user_id == user then cancel_resting_maker P l side o.id reason b else (l, b) in
        cancel_own_makers-Good orders user side step.0 step.1 (
          if_cases (λ (r : Level × Book P). Good r.0) (o.user_id == user) _ _
            (λ _. cancel_resting_maker-Good l side o.id reason b g) (λ _. g))

module _ (P : PriceLevels) (Good : ℕ → P.Level → Type 0)
    (J : P.MatchResult → StopCondition → Type 0) (mode : StpMode) (k : Taker) where
  open P use {Level, order_count, visible_quantity, snapshot_by_seq, match_order, was_rejected}

  -- The fact, of a sweep.
  abbrev pub Holds : Sweep P → Type 0
  Holds w = J w.result w.stop

  -- An execution within the cap keeps it.
  abbrev pub Keeps : ℕ → Type 0
  Keeps price =
      (qty : ℕ) (level : Level) (w : Sweep P)
      → beyond_limit k.side k.limit price ≡ false
      → Good price level
      → qty ≤ level_qty_cap w.stop price k.lot
      → Holds w
      → Holds (execute P k price qty level w).1

  module _ (price : ℕ) (kept : IsKept P (Good price)) (keeps : Keeps price)
      (allowed : beyond_limit k.side k.limit price ≡ false) where
    match_level-Holds :
        (level : Level) (w : Sweep P)
        → Good price level
        → Holds w
        → Holds (sweep_of (match_level P k price (level_qty_cap w.stop price k.lot) level w))
    unfolding match_level
    match_level-Holds level w g h =
        if_cases (λ r. Holds (sweep_of r))
          (is_done (execute P k price (level_qty_cap w.stop price k.lot) level w).1.stop) _ _
          (λ _. keeps _ level w allowed g (omega arith) h)
          (λ _. keeps _ level w allowed g (omega arith) h)

    match_safe-Holds :
        (safe : ℕ) (level : Level) (w : Sweep P)
        → Good price level
        → Holds w
        → Holds (match_safe P k price (level_qty_cap w.stop price k.lot) safe level w).1
    unfolding match_safe
    match_safe-Holds safe level w g h =
        if_cases (λ (r : Level × Sweep P). Holds r.1) (ltb 0 safe) _ _
          (λ _.
            if_cases (λ (r : Level × Sweep P). Holds r.1)
              (ltb 0 (min (level_qty_cap w.stop price k.lot) safe)) _ _
              (λ _. keeps _ level w allowed g (omega arith) h) (λ _. h))
          (λ _. h)

    act-Holds :
        (action : StpAction) (level : Level) (w : Sweep P)
        → Good price level
        → Holds w
        → Holds (sweep_of (act P k price (level_qty_cap w.stop price k.lot) action level w))
    unfolding act
    act-Holds StpAction.no_conflict level w g h = match_level-Holds level w g h
    act-Holds (StpAction.cancel_taker safe) level w g h = match_safe-Holds safe level w g h
    act-Holds StpAction.cancel_maker level w g h =
        let orders = snapshot_by_seq level in
        let (level', b) = cancel_own_makers P orders k.user_id (opposite k.side) level w.book in
        if_cases (λ r. Holds (sweep_of r)) (order_count level' == 0) _ _ (λ _. h)
          (λ _.
            match_level-Holds level' (record w { book = b })
              (cancel_own_makers-Good P (Good price) kept orders k.user_id (opposite k.side) level
                w.book g)
              h)
    act-Holds (StpAction.cancel_both safe maker) level w g h = match_safe-Holds safe level w g h

    probe-Holds :
        (cap : ℕ) (level : Level) (w : Sweep P) → Holds w → Holds (sweep_of (probe P k cap level w))
    unfolding probe
    probe-Holds cap level w h =
        let (m, level', gen) =
          match_order level cap k.order_id k.kind k.timestamp w.book.generator in
        if_cases (λ r. Holds (sweep_of r)) (was_rejected m) _ _ (λ _. h) (λ _. h)

  module _ (price : ℕ) (kept : IsKept P (Good price)) (keeps : Keeps price) where
    round-Holds :
        (level : Level) (w : Sweep P)
        → Good price level
        → Holds w
        → Holds (sweep_of (round P mode k price level w))
    unfolding round
    round-Holds level w g h =
        if_cases (λ r. Holds (sweep_of r)) (beyond_limit k.side k.limit price) _ _ (λ _. h)
          λ e.
            if_cases (λ r. Holds (sweep_of r)) (level_qty_cap w.stop price k.lot == 0) _ _ (λ _. h)
              λ _.
                if_cases (λ r. Holds (sweep_of r)) (is_post_only k.kind) _ _
                  (λ _. probe-Holds price kept keeps e (level_qty_cap w.stop price k.lot) level w h)
                  λ _.
                    if_cases (λ r. Holds (sweep_of r)) k.stp_active _ _
                      (λ _.
                        act-Holds price kept keeps e
                          (check_stp_at_level visible_quantity (snapshot_by_seq level) k.user_id
                            mode)
                          level w g h)
                      (λ _. match_level-Holds price kept keeps e level w g h)

  -- Every level has the fact of its price.
  abbrev pub AllGood : Map Level → Type 0
  AllGood levels = All (λ (e : ℕ × Level). Good e.0 e.1) levels

  module _ (kept : (price : ℕ) → IsKept P (Good price)) (keeps : (price : ℕ) → Keeps price) where
    pub walk-Holds :
        (levels : Map Level) (w : Sweep P)
        → AllGood levels
        → Holds w
        → Holds (walk P mode k levels w).1
    unfolding walk
    walk-Holds [] w gs h = h
    walk-Holds ((price, level) ∷ levels) w (g, gs) h =
        after (round P mode k price level w)
          (round-Holds price (kept price) (keeps price) level w g h)
          (λ w' h'. walk-Holds levels w' gs h')
      where
        after :
            (r : Round P)
            → Holds (sweep_of r)
            → ((w : Sweep P) → Holds w → Holds (walk P mode k levels w).1)
            → Holds
                (elim r as (λ _. Map Level × Sweep P) [
                  | break level' w' ↦ ((price, level') ∷ levels, w')
                  | continue level' w' ↦
                      let (levels', w'') = walk P mode k levels w' in
                      ((price, level') ∷ levels', w'')
                ]).1
        after (break level' w') h' rest = h'
        after (continue level' w') h' rest = rest w' h'
