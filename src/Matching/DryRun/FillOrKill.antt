-- ===== src/Matching/DryRun/FillOrKill.antt =====
-- The feasibility run of a fill-or-kill order is exact: it counts what the match would fill.
use order_book_rs.Prelude.{
  ℕ, ◌+◌, ◌-◌, ◌≤◌, ◌≡◌, refl, sym, ◌∙◌, subst, ap, true, false, [], ◌∷◌, ◌==◌, ◌⊎◌, inl, inr,
  if_cases, if_true, if_false, leb, min, Bool-cases, arith,
}
use order_book_rs.Prelude.Words.{u64_max, sat_add}
use order_book_rs.Prelude.Maps.{Map}
use order_book_rs.Types.{TakerKind, is_post_only}
use order_book_rs.Error.{StpMode}
use order_book_rs.PriceLevel.{PriceLevels, PriceLevelLaws}
use order_book_rs.Matching.Budget.{
  StopCondition, level_qty_cap, round_lot, consume, is_done, round_lot-le,
}
use order_book_rs.Matching.Level.{Sweep, Taker, execute, process_level_match}
use order_book_rs.Matching.Walk.{Round, break, continue, beyond_limit, match_level, round, walk}
use order_book_rs.Matching.DryRun.{Query, reachable, fillable}

module _ (P : PriceLevels) (L : PriceLevelLaws P) (mode : StpMode) (k : Taker) (quantity : ℕ) where
  open P use {Level, matchable_quantity, match_order, remaining_quantity}

  -- The query of a taker.
  abbrev pub query : Query
  query = record {
    side = k.side;
    quantity = quantity;
    limit = k.limit;
    lot = k.lot;
    user_id = k.user_id;
    taker_id = k.order_id;
    stp_active = false;
  }

  module _ (standard : k.kind ≡ TakerKind.standard) (no_stp : k.stp_active ≡ false) where
    round-blocked :
        (price : ℕ) (level : Level) (w : Sweep P) (matched : ℕ)
        → (beyond_limit k.side k.limit price ≡ true) ⊎ (level_qty_cap w.stop price k.lot ≡ 0)
        → round P mode k price level w ≡ break level w
    unfolding round
    round-blocked price level w matched (inl far) = rw far refl
    round-blocked price level w matched (inr dry) =
        if_cases (λ r. r ≡ break level w) (beyond_limit k.side k.limit price) _ _ (λ _. refl)
          (λ _. rw dry refl)

    round-open :
        (price : ℕ) (level : Level) (w : Sweep P)
        → beyond_limit k.side k.limit price ≡ false
        → (level_qty_cap w.stop price k.lot == 0) ≡ false
        → round P mode k price level w
          ≡ match_level P k price (level_qty_cap w.stop price k.lot) level w
    unfolding round
    round-open price level w near room = rw (near, room, ap is_post_only standard, no_stp) refl

    round-open_at :
        (price : ℕ) (level : Level) (w : Sweep P) (most : ℕ)
        → level_qty_cap w.stop price k.lot ≡ most
        → beyond_limit k.side k.limit price ≡ false
        → (most == 0) ≡ false
        → round P mode k price level w ≡ match_level P k price most level w
    round-open_at price level w most e near room =
        subst (λ n. round P mode k price level w ≡ match_level P k price n level w) e
          (round-open price level w near (subst (λ n. (n == 0) ≡ false) (sym e) room))

    -- What the match of a cap leaves of the budget.
    execute-stop :
        (price : ℕ) (level : Level) (w : Sweep P) (matched : ℕ)
        → w.stop ≡ StopCondition.base_qty (quantity - matched)
        → let most = round_lot (quantity - matched) k.lot in
          (execute P k price most level w).1.stop
          ≡ StopCondition.base_qty
              (quantity - matched - min most (matchable_quantity level most k.order_id))
    unfolding execute process_level_match consume
    execute-stop price level w matched e =
        let most = round_lot (quantity - matched) k.lot in
        let law =
          subst
            (λ kind.
              min (matchable_quantity level most k.order_id) most
                + remaining_quantity
                    (match_order level most k.order_id kind k.timestamp w.book.generator).0
              ≡ most)
            (sym standard)
            (L.matchable_quantity-match level most k.order_id k.timestamp w.book.generator) in
        let m = (match_order level most k.order_id k.kind k.timestamp w.book.generator).0 in
        subst
          (λ s.
            consume s (most - remaining_quantity m) price
            ≡ StopCondition.base_qty
                (quantity - matched - min most (matchable_quantity level most k.order_id)))
          (sym e) (ap StopCondition.base_qty (omega (arith, law)))

    -- The step of the feasibility run.
    abbrev next : Level → ℕ → ℕ
    next level matched =
        let most = round_lot (quantity - matched) k.lot in
        sat_add u64_max matched (min most (matchable_quantity level most k.order_id))

    fillable-stops :
        (price : ℕ) (level : Level) (levels : Map Level) (matched : ℕ)
        → (leb quantity matched ≡ true)
          ⊎ (beyond_limit k.side k.limit price ≡ true)
          ⊎ ((round_lot (quantity - matched) k.lot == 0) ≡ true)
        → fillable P mode query ((price, level) ∷ levels) matched ≡ matched
    unfolding fillable
    fillable-stops price level levels matched (inl done) =
        if_true (λ n. n ≡ matched) (leb quantity matched) _ _ done refl
    fillable-stops price level levels matched (inr (inl far)) =
        if_cases (λ n. n ≡ matched) (leb quantity matched) _ _ (λ _. refl)
          (λ _. if_true (λ n. n ≡ matched) (beyond_limit k.side k.limit price) _ _ far refl)
    fillable-stops price level levels matched (inr (inr dry)) =
        if_cases (λ n. n ≡ matched) (leb quantity matched) _ _ (λ _. refl)
          λ _.
            if_cases (λ n. n ≡ matched) (beyond_limit k.side k.limit price) _ _ (λ _. refl)
              λ _.
                if_true (λ n. n ≡ matched) (round_lot (quantity - matched) k.lot == 0) _ _ dry refl

    fillable-goes :
        (price : ℕ) (level : Level) (levels : Map Level) (matched : ℕ)
        → leb quantity matched ≡ false
        → beyond_limit k.side k.limit price ≡ false
        → (round_lot (quantity - matched) k.lot == 0) ≡ false
        → fillable P mode query ((price, level) ∷ levels) matched
          ≡ fillable P mode query levels (next level matched)
    unfolding fillable reachable
    fillable-goes price level levels matched more near room =
        let goal : ℕ → Type 0 = λ n. n ≡ fillable P mode query levels (next level matched) in
        if_false goal (leb quantity matched) _ _ more (
          if_false goal (beyond_limit k.side k.limit price) _ _ near
            (if_false goal (round_lot (quantity - matched) k.lot == 0) _ _ room refl))

    pub fillable_done :
        (levels : Map Level) (matched : ℕ)
        → quantity ≤ matched
        → fillable P mode query levels matched ≡ matched
    unfolding fillable
    fillable_done [] matched h = refl
    fillable_done ((price, level) ∷ levels) matched h =
        fillable-stops price level levels matched (inl (ground arith))

    -- A walk by the round of its first level.
    walk_by :
        (C : StopCondition → Type 0) (price : ℕ) (level : Level) (levels : Map Level) (w : Sweep P)
        (r : Round P)
        → round P mode k price level w ≡ r
        → C
            (elim r as (λ _. Map Level × Sweep P) [
              | break level' w' ↦ ((price, level') ∷ levels, w')
              | continue level' w' ↦
                  let (levels', w'') = walk P mode k levels w' in ((price, level') ∷ levels', w'')
            ]).1.stop
        → C (walk P mode k ((price, level) ∷ levels) w).1.stop
    unfolding walk
    walk_by C price level levels w r e h =
        subst
          (λ r.
            C
              (elim r as (λ _. Map Level × Sweep P) [
                | break level' w' ↦ ((price, level') ∷ levels, w')
                | continue level' w' ↦
                    let (levels', w'') = walk P mode k levels w' in ((price, level') ∷ levels', w'')
              ]).1.stop)
          (sym e) h

    -- The budget that a walk leaves is what the run does not count.
    abbrev pub IsRun : StopCondition → ℕ → Type 0
    IsRun stop n = (stop ≡ StopCondition.base_qty (quantity - n)) × (n ≤ quantity)

    -- What the walk and the run do on a level that they both stop at.
    blocked-IsRun :
        (price : ℕ) (level : Level) (levels : Map Level) (w : Sweep P) (matched : ℕ)
        → w.stop ≡ StopCondition.base_qty (quantity - matched)
        → matched ≤ quantity
        → (beyond_limit k.side k.limit price ≡ true) ⊎ (level_qty_cap w.stop price k.lot ≡ 0)
        → (leb quantity matched ≡ true)
          ⊎ (beyond_limit k.side k.limit price ≡ true)
          ⊎ ((round_lot (quantity - matched) k.lot == 0) ≡ true)
        → IsRun
            (walk P mode k ((price, level) ∷ levels) w).1.stop
            (fillable P mode query ((price, level) ∷ levels) matched)
    blocked-IsRun price level levels w matched e h c c' =
        subst (IsRun (walk P mode k ((price, level) ∷ levels) w).1.stop)
          (sym (fillable-stops price level levels matched c'))
          (walk_by (λ s. IsRun s matched) price level levels w (break level w)
            (round-blocked price level w matched c) (e, h))

    base_cap :
        (price matched : ℕ) (w : Sweep P)
        → w.stop ≡ StopCondition.base_qty (quantity - matched)
        → level_qty_cap w.stop price k.lot ≡ round_lot (quantity - matched) k.lot
    unfolding level_qty_cap
    base_cap price matched w e = ap (λ s. level_qty_cap s price k.lot) e

    -- A level that both take, when the rest of the levels agrees.
    module _ (price : ℕ) (level : Level) (levels : Map Level) (w : Sweep P) (matched : ℕ)
        (e : w.stop ≡ StopCondition.base_qty (quantity - matched)) (h : matched ≤ quantity)
        (b : quantity ≤ u64_max)
        (rest : (w : Sweep P) (matched : ℕ)
          → w.stop ≡ StopCondition.base_qty (quantity - matched)
          → matched ≤ quantity
          → IsRun (walk P mode k levels w).1.stop (fillable P mode query levels matched)) where
      abbrev taken : Level × Sweep P
      taken = execute P k price (round_lot (quantity - matched) k.lot) level w

      next-le : next level matched ≤ quantity
      next-le = omega (arith, round_lot-le (quantity - matched) k.lot)

      taken-stop : taken.1.stop ≡ StopCondition.base_qty (quantity - next level matched)
      taken-stop =
          let most = round_lot (quantity - matched) k.lot in
          let x = min most (matchable_quantity level most k.order_id) in
          execute-stop price level w matched e
          ∙ ap StopCondition.base_qty (omega (arith, round_lot-le (quantity - matched) k.lot))

      done-all : is_done taken.1.stop ≡ true → quantity ≤ next level matched
      unfolding is_done
      done-all d =
          let z : (quantity - next level matched == 0) ≡ true =
            subst (λ s. is_done s ≡ true) taken-stop d in
          ground arith

      match_level-IsRun :
          IsRun
            (elim (match_level P k price (round_lot (quantity - matched) k.lot) level w)
              as (λ _. Map Level × Sweep P) [
                | break level' w' ↦ ((price, level') ∷ levels, w')
                | continue level' w' ↦
                    let (levels', w'') = walk P mode k levels w' in ((price, level') ∷ levels', w'')
              ]).1.stop
            (fillable P mode query levels (next level matched))
      unfolding match_level
      match_level-IsRun =
          if_cases
            (λ (r : Round P).
              IsRun
                (elim r as (λ _. Map Level × Sweep P) [
                  | break level' w' ↦ ((price, level') ∷ levels, w')
                  | continue level' w' ↦
                      let (levels', w'') = walk P mode k levels w' in
                      ((price, level') ∷ levels', w'')
                ]).1.stop
                (fillable P mode query levels (next level matched)))
            (is_done taken.1.stop) _ _
            (λ d.
              subst (IsRun taken.1.stop)
                (sym (fillable_done levels (next level matched) (done-all d)))
                (taken-stop, next-le))
            (λ _. rest taken.1 (next level matched) taken-stop next-le)

    pub walk-IsRun :
        (levels : Map Level) (w : Sweep P) (matched : ℕ)
        → w.stop ≡ StopCondition.base_qty (quantity - matched)
        → matched ≤ quantity
        → quantity ≤ u64_max
        → IsRun (walk P mode k levels w).1.stop (fillable P mode query levels matched)
    unfolding walk fillable
    walk-IsRun [] w matched e h b = (e, h)
    walk-IsRun ((price, level) ∷ levels) w matched e h b =
        let most = round_lot (quantity - matched) k.lot in
        let cap_eq = base_cap price matched w e in
        elim (Bool-cases (leb quantity matched)) [
          | inl done ↦
              blocked-IsRun price level levels w matched e h
                (inr (ground (arith, cap_eq, round_lot-le (quantity - matched) k.lot))) (inl done)
          | inr more ↦ elim (Bool-cases (beyond_limit k.side k.limit price)) [
            | inl far ↦ blocked-IsRun price level levels w matched e h (inl far) (inr (inl far))
            | inr near ↦ elim (Bool-cases (most == 0)) [
              | inl dry ↦
                  blocked-IsRun price level levels w matched e h (inr (ground (arith, cap_eq)))
                    (inr (inr dry))
              | inr room ↦
                  subst (IsRun (walk P mode k ((price, level) ∷ levels) w).1.stop)
                    (sym (fillable-goes price level levels matched more near room))
                    (walk_by (λ s. IsRun s (fillable P mode query levels (next level matched)))
                      price level levels w (match_level P k price most level w)
                      (round-open_at price level w most cap_eq near room)
                      (match_level-IsRun price level levels w matched e h b
                        (λ w' m' e' h'. walk-IsRun levels w' m' e' h' b)))
            ]
          ]
        ]
