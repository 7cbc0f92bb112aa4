-- ===== src/Matching/Walk.antt =====
-- The level walk of `match_order_inner` (src/orderbook/matching.rs): one round of the loop for each
-- price level, best price first, until it breaks.
use order_book_rs.Prelude.{
  ℕ, Bool, true, false, Option, none, some, List, [], ◌∷◌, ◌++◌, ◌==◌, if◌then◌else◌, ltb, min,
}
use order_book_rs.Prelude.Maps.{Map}
use order_book_rs.Types.{Side, opposite, is_post_only}
use order_book_rs.Error.{StpMode}
use order_book_rs.PriceLevel.{PriceLevels}
use order_book_rs.Stp.{StpAction, check_stp_at_level}
use order_book_rs.OrderState.{CancelReason}
use order_book_rs.Matching.Budget.{level_qty_cap, is_done}
use order_book_rs.Matching.Level.{Sweep, Taker, execute, cancel_own_makers, cancel_resting_maker}

-- How a round ends: the loop breaks, or goes on to the next level. Either way the level is kept.
pub data Round (P : PriceLevels) : Type 0 where
  break : P.Level → Sweep P → Round P
  continue : P.Level → Sweep P → Round P

-- The limit of the taker against a level's price.
unfoldable pub beyond_limit : Side → Option ℕ → ℕ → Bool
beyond_limit side none price = false
beyond_limit Side.buy (some limit) price = ltb limit price
beyond_limit Side.sell (some limit) price = ltb price limit

module _ (P : PriceLevels) where
  open P use {Level, order_count, visible_quantity, snapshot_by_seq, match_order, was_rejected}

  -- The probe of a post-only taker.
  unfoldable pub probe : Taker → ℕ → Level → Sweep P → Round P
  probe k cap level w =
      let (m, level', gen) = match_order level cap k.order_id k.kind k.timestamp w.book.generator in
      let w' : Sweep P = record w { book = record w.book { generator = gen } } in
      if was_rejected m
      then break level' (record w' { post_only_rejected = true })
      else continue level' w'

  -- The normal match, after which an exhausted budget breaks the loop.
  unfoldable pub match_level : Taker → ℕ → ℕ → Level → Sweep P → Round P
  match_level k price cap level w =
      let (level', w') = execute P k price cap level w in
      if is_done w'.stop then break level' w' else continue level' w'

  -- The match of what stands ahead of the first order of the taker's own.
  unfoldable pub match_safe : Taker → ℕ → ℕ → ℕ → Level → Sweep P → Level × Sweep P
  match_safe k price cap safe level w =
      if ltb 0 safe
      then (if ltb 0 (min cap safe) then execute P k price (min cap safe) level w else (level, w))
      else (level, w)

  mark_if_empty : ℕ → Level → List ℕ → List ℕ
  mark_if_empty price level prices = if order_count level == 0 then prices ++ price ∷ [] else prices

  -- A level whose self-trade scan has found something, or nothing.
  unfoldable pub act : Taker → ℕ → ℕ → StpAction → Level → Sweep P → Round P
  unfolding match_level match_safe mark_if_empty
  act k price cap StpAction.no_conflict level w = match_level k price cap level w
  act k price cap (StpAction.cancel_taker safe) level w =
      let (level', w') = match_safe k price cap safe level w in
      break level' (record w' { stp_taker_cancelled = true })
  act k price cap StpAction.cancel_maker level w =
      let (level', b) =
        cancel_own_makers P (snapshot_by_seq level) k.user_id (opposite k.side) level w.book in
      if order_count level' == 0
      then continue level' (record w { book = b; empty_prices = w.empty_prices ++ price ∷ [] })
      else match_level k price cap level' (record w { book = b })
  act k price cap (StpAction.cancel_both safe maker) level w =
      let (level', w') = match_safe k price cap safe level w in
      let (level'', b) =
        cancel_resting_maker P level' (opposite k.side) maker CancelReason.self_trade_prevention
          w'.book in
      break level'' (record w' {
        book = b;
        empty_prices = mark_if_empty price level'' w'.empty_prices;
        stp_taker_cancelled = true;
      })

  -- One round: the limit, the cap, a post-only probe, the self-trade scan, the match.
  unfoldable pub round : StpMode → Taker → ℕ → Level → Sweep P → Round P
  unfolding probe act
  round mode k price level w =
      let cap = level_qty_cap w.stop price k.lot in
      if beyond_limit k.side k.limit price
      then break level w
      else if cap == 0
      then break level w
      else if is_post_only k.kind
      then probe k cap level w
      else if k.stp_active
      then act k price cap
          (check_stp_at_level visible_quantity (snapshot_by_seq level) k.user_id mode) level w
      else match_level k price cap level w

  -- The loop: the levels as it leaves them, and what it carries out.
  unfoldable pub walk : StpMode → Taker → Map Level → Sweep P → Map Level × Sweep P
  walk mode k [] w = ([], w)
  walk mode k ((price, level) ∷ levels) w = elim (round mode k price level w) [
    | break level' w' ↦ ((price, level') ∷ levels, w')
    | continue level' w' ↦
        let (levels', w'') = walk mode k levels w' in ((price, level') ∷ levels', w'')
  ]
