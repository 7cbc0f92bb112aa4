-- ===== src/Matching/DryRun.antt =====
-- The dry runs of src/orderbook/matching.rs: the peek at the depth, and the feasibility of a
-- fill-or-kill order.
pub mod Peek
pub mod FillOrKill
pub mod Exact
use order_book_rs.Prelude.{
  ℕ, ◌+◌, ◌-◌, ◌%◌, ◌^◌, Bool, true, false, ◌&&◌, not, Option, none, some, List, [], ◌∷◌, ◌==◌,
  if◌then◌else◌, keep, sum_of, leb, ltb, min,
}
use order_book_rs.Prelude.Words.{u64_max, sat_add}
use order_book_rs.Prelude.Result.{ok, err}
use order_book_rs.Prelude.Maps.{Map}
use order_book_rs.Types.{Side, opposite, Order, OrderKind}
use order_book_rs.Error.{StpMode}
use order_book_rs.PriceLevel.{PriceLevels}
use order_book_rs.Stp.{StpAction, is_enabled, check_stp_at_level}
use order_book_rs.Book.{Book, side_levels}
use order_book_rs.Matching.Budget.{round_lot}
use order_book_rs.Matching.Walk.{beyond_limit}
use order_book_rs.Matching.Submit.{best_first, is_empty, lot_or_one}

-- The hidden quantity that a sweep would draw.
unfoldable pub drawable_hidden : OrderKind → ℕ
drawable_hidden (OrderKind.iceberg visible hidden) = hidden
drawable_hidden (OrderKind.reserve visible hidden amount true) = hidden
drawable_hidden _ = 0

-- What a fill-or-kill run fixes.
pub record Query : Type 0 where
  pub side : Side
  pub quantity : ℕ
  pub limit : Option ℕ
  pub lot : ℕ
  pub user_id : ℕ
  pub taker_id : ℕ
  pub stp_active : Bool

module _ (P : PriceLevels) where
  open P use {Level, total_quantity, visible_quantity, snapshot_by_seq, matchable_quantity}

  unfoldable pub order_matchable_qty : Order → ℕ
  unfolding drawable_hidden
  order_matchable_qty o = sat_add u64_max (visible_quantity o) (drawable_hidden o.kind)

  -- `total_quantity().unwrap_or(0)`
  abbrev pub depth_of : Level → ℕ
  depth_of level = elim (total_quantity level) [ err e ↦ 0 | ok q ↦ q ]

  -- The loop of `peek_match`.
  unfoldable pub peek : Side → ℕ → Option ℕ → Map Level → ℕ → ℕ
  peek side quantity limit [] matched = matched
  peek side quantity limit ((price, level) ∷ levels) matched =
      let rest =
        peek side quantity limit levels
          (sat_add u64_max matched (min (quantity - matched) (depth_of level))) in
      if leb quantity matched
      then matched
      else if beyond_limit side limit price
      then matched
      else rest

  unfoldable pub peek_match : Book P → Side → ℕ → Option ℕ → ℕ
  unfolding peek best_first
  peek_match b side quantity limit =
      let levels = side_levels b (opposite side) in
      if is_empty levels then 0 else peek side quantity limit (best_first side levels) 0

  -- The reachable depth of a level under the action of its self-trade scan, and whether the taker
  -- stops there.
  unfoldable pub reach : StpAction → Query → ℕ → Level → ℕ × Bool
  unfolding order_matchable_qty
  reach StpAction.no_conflict k most level = (matchable_quantity level most k.taker_id, false)
  reach StpAction.cancel_maker k most level = (
    sum_of order_matchable_qty
          (keep (λ (o : Order). not (o.user_id == k.user_id)) (snapshot_by_seq level))
        % 2 ^ 64,
    false,
  )
  reach (StpAction.cancel_taker safe) k most level = (safe, true)
  reach (StpAction.cancel_both safe maker) k most level = (safe, true)

  -- `(reachable, stop_after)`
  unfoldable pub reachable : StpMode → Query → ℕ → Level → ℕ × Bool
  unfolding reach
  reachable mode k most level =
      if k.stp_active
      then reach (check_stp_at_level visible_quantity (snapshot_by_seq level) k.user_id mode) k most
          level
      else (matchable_quantity level most k.taker_id, false)

  -- The loop of `fok_fillable_quantity`.
  unfoldable pub fillable : StpMode → Query → Map Level → ℕ → ℕ
  unfolding reachable
  fillable mode k [] matched = matched
  fillable mode k ((price, level) ∷ levels) matched =
      let most = round_lot (k.quantity - matched) k.lot in
      let (depth, stop_after) = reachable mode k most level in
      let matched' = sat_add u64_max matched (min most depth) in
      let rest = fillable mode k levels matched' in
      if leb k.quantity matched
      then matched
      else if beyond_limit k.side k.limit price
      then matched
      else if most == 0
      then matched
      else if stop_after
      then matched'
      else rest

  unfoldable pub fok_fillable_quantity : Book P → Side → ℕ → Option ℕ → ℕ → ℕ → ℕ
  unfolding fillable best_first
  fok_fillable_quantity b side quantity limit user_id taker_id =
      let levels = side_levels b (opposite side) in
      let k : Query = record {
        side = side;
        quantity = quantity;
        limit = limit;
        lot = lot_or_one b.lot_size;
        user_id = user_id;
        taker_id = taker_id;
        stp_active = is_enabled b.stp_mode && not (user_id == 0);
      } in
      if quantity == 0
      then 0
      else if is_empty levels
      then 0
      else fillable b.stp_mode k (best_first side levels) 0
