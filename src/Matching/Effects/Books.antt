-- ===== src/Matching/Effects/Books.antt =====
-- A fact of the book that no step of a match takes away holds after the walk.
use order_book_rs.Prelude.{ℕ, List, [], ◌∷◌, ◌==◌, if◌then◌else◌, if_cases, ltb, min}
use order_book_rs.Prelude.Maps.{Map}
use order_book_rs.Types.{Side, opposite, is_post_only, Order}
use order_book_rs.Error.{StpMode}
use order_book_rs.OrderState.{CancelReason}
use order_book_rs.PriceLevel.{PriceLevels}
use order_book_rs.Stp.{StpAction, check_stp_at_level}
use order_book_rs.Book.{Book}
use order_book_rs.Matching.Budget.{level_qty_cap, is_done}
use order_book_rs.Matching.Level.{
  Sweep, Taker, record_trades, process_level_match, execute, cancel_resting_maker,
  cancel_own_makers,
}
use order_book_rs.Matching.Walk.{
  Round, break, continue, beyond_limit, probe, match_level, match_safe, act, round, walk,
}
use order_book_rs.Matching.Conserve.Rule.{sweep_of}

module _ (P : PriceLevels) (I : Book P → Type 0) where
  open P use {
    Level, Trade, trades, order_count, visible_quantity, snapshot_by_seq, match_order, was_rejected,
  }

  -- The steps that change the book of a sweep.
  pub record IsKeptBySteps : Type 0 where
    pub generated : (b : Book P) (gen : ℕ) → I b → I (record b { generator = gen })
    pub traded :
        (b : Book P) (side : Side) (price : ℕ) (level : Level) (ts : List Trade)
        → I b
        → I (record_trades P b side price level ts)
    pub cancelled :
        (level : Level) (side : Side) (id : ℕ) (reason : CancelReason) (b : Book P)
        → I b
        → I (cancel_resting_maker P level side id reason b).1

  module _ (steps : IsKeptBySteps) where
    execute-Keeps :
        (k : Taker) (price qty : ℕ) (level : Level) (w : Sweep P)
        → I w.book
        → I (execute P k price qty level w).1.book
    unfolding execute process_level_match
    execute-Keeps k price qty level w h =
        let (m, level', gen) =
          match_order level qty k.order_id k.kind k.timestamp w.book.generator in
        steps.traded (record w.book { generator = gen }) k.side price level' (trades m)
          (steps.generated w.book gen h)

    cancel_own_makers-Keeps :
        (orders : List Order) (user : ℕ) (side : Side) (level : Level) (b : Book P)
        → I b
        → I (cancel_own_makers P orders user side level b).1
    unfolding cancel_own_makers
    cancel_own_makers-Keeps [] user side level b h = h
    cancel_own_makers-Keeps (o ∷ orders) user side level b h =
        let reason = CancelReason.self_trade_prevention in
        let step : Level × Book P =
          if o.user_id == user
          then cancel_resting_maker P level side o.id reason b
          else (level, b) in
        cancel_own_makers-Keeps orders user side step.0 step.1 (
          if_cases (λ (r : Level × Book P). I r.1) (o.user_id == user) _ _
            (λ _. steps.cancelled level side o.id reason b h) (λ _. h))

    match_level-Keeps :
        (k : Taker) (price cap : ℕ) (level : Level) (w : Sweep P)
        → I w.book
        → I (sweep_of (match_level P k price cap level w)).book
    unfolding match_level
    match_level-Keeps k price cap level w h =
        if_cases (λ r. I (sweep_of r).book) (is_done (execute P k price cap level w).1.stop) _ _
          (λ _. execute-Keeps k price cap level w h) (λ _. execute-Keeps k price cap level w h)

    match_safe-Keeps :
        (k : Taker) (price cap safe : ℕ) (level : Level) (w : Sweep P)
        → I w.book
        → I (match_safe P k price cap safe level w).1.book
    unfolding match_safe
    match_safe-Keeps k price cap safe level w h =
        if_cases (λ (r : Level × Sweep P). I r.1.book) (ltb 0 safe) _ _
          (λ _.
            if_cases (λ (r : Level × Sweep P). I r.1.book) (ltb 0 (min cap safe)) _ _
              (λ _. execute-Keeps k price (min cap safe) level w h) (λ _. h))
          (λ _. h)

    act-Keeps :
        (k : Taker) (price cap : ℕ) (action : StpAction) (level : Level) (w : Sweep P)
        → I w.book
        → I (sweep_of (act P k price cap action level w)).book
    unfolding act
    act-Keeps k price cap StpAction.no_conflict level w h = match_level-Keeps k price cap level w h
    act-Keeps k price cap (StpAction.cancel_taker safe) level w h =
        match_safe-Keeps k price cap safe level w h
    act-Keeps k price cap StpAction.cancel_maker level w h =
        let (level', b) =
          cancel_own_makers P (snapshot_by_seq level) k.user_id (opposite k.side) level w.book in
        let h' : I b =
          cancel_own_makers-Keeps (snapshot_by_seq level) k.user_id (opposite k.side) level w.book
            h in
        if_cases (λ r. I (sweep_of r).book) (order_count level' == 0) _ _ (λ _. h')
          (λ _. match_level-Keeps k price cap level' (record w { book = b }) h')
    act-Keeps k price cap (StpAction.cancel_both safe maker) level w h =
        let (level', w') = match_safe P k price cap safe level w in
        steps.cancelled level' (opposite k.side) maker CancelReason.self_trade_prevention w'.book
          (match_safe-Keeps k price cap safe level w h)

    probe-Keeps :
        (k : Taker) (cap : ℕ) (level : Level) (w : Sweep P)
        → I w.book
        → I (sweep_of (probe P k cap level w)).book
    unfolding probe
    probe-Keeps k cap level w h =
        let (m, level', gen) =
          match_order level cap k.order_id k.kind k.timestamp w.book.generator in
        if_cases (λ r. I (sweep_of r).book) (was_rejected m) _ _ (λ _. steps.generated w.book gen h)
          (λ _. steps.generated w.book gen h)

    round-Keeps :
        (mode : StpMode) (k : Taker) (price : ℕ) (level : Level) (w : Sweep P)
        → I w.book
        → I (sweep_of (round P mode k price level w)).book
    unfolding round
    round-Keeps mode k price level w h =
        let cap = level_qty_cap w.stop price k.lot in
        if_cases (λ r. I (sweep_of r).book) (beyond_limit k.side k.limit price) _ _ (λ _. h)
          (λ _.
            if_cases (λ r. I (sweep_of r).book) (cap == 0) _ _ (λ _. h)
              (λ _.
                if_cases (λ r. I (sweep_of r).book) (is_post_only k.kind) _ _
                  (λ _. probe-Keeps k cap level w h)
                  (λ _.
                    if_cases (λ r. I (sweep_of r).book) k.stp_active _ _
                      (λ _.
                        act-Keeps k price cap
                          (check_stp_at_level visible_quantity (snapshot_by_seq level) k.user_id
                            mode)
                          level w h)
                      (λ _. match_level-Keeps k price cap level w h))))

    pub walk-Keeps :
        (mode : StpMode) (k : Taker) (levels : Map Level) (w : Sweep P)
        → I w.book
        → I (walk P mode k levels w).1.book
    unfolding walk
    walk-Keeps mode k [] w h = h
    walk-Keeps mode k ((price, level) ∷ levels) w h =
        after (round P mode k price level w) (round-Keeps mode k price level w h)
          (λ w' h'. walk-Keeps mode k levels w' h')
      where
        after :
            (r : Round P)
            → I (sweep_of r).book
            → ((w : Sweep P) → I w.book → I (walk P mode k levels w).1.book)
            → I
                (elim r as (λ _. Map Level × Sweep P) [
                  | break level' w' ↦ ((price, level') ∷ levels, w')
                  | continue level' w' ↦
                      let (levels', w'') = walk P mode k levels w' in
                      ((price, level') ∷ levels', w'')
                ]).1.book
        after (break level' w') h' rest = h'
        after (continue level' w') h' rest = rest w' h'
