-- ===== src/Matching/Effects/Locations.antt =====
-- A match takes locations away and gives none (src/orderbook/matching.rs, `match_order_inner`).
use order_book_rs.Prelude.{
  ℕ, ◌≡◌, ◌&&◌, false, none, if◌then◌else◌, if_cases, option_cases, List, [], ◌∷◌, arith,
}
use order_book_rs.Prelude.Maps.{Map, lookup, erase, lookup-erase}
use order_book_rs.Prelude.Result.{Result}
use order_book_rs.Types.{Side, opposite, TakerKind}
use order_book_rs.Error.{BookError}
use order_book_rs.PriceLevel.{PriceLevels}
use order_book_rs.Book.{Book, side_levels, put_side, emit_level_change}
use order_book_rs.Matching.Budget.{MatchMode, from_mode, initial_match_quantity}
use order_book_rs.Matching.Level.{Sweep, Taker, record_trades, cancel_resting_maker}
use order_book_rs.Matching.Walk.{walk}
use order_book_rs.Matching.Submit.{
  MatchOutcome, best_first, is_empty, shortfall, settle, finish, sweep, match_order_inner, taker_of,
  entered, erase_all,
}
use order_book_rs.Matching.Effects.Books.{IsKeptBySteps, walk-Keeps}

module _ (P : PriceLevels) (j : ℕ) where
  open P use {Level, Trade, cancel, trades, new_result}

  -- The order of this id is located nowhere.
  abbrev pub IsGone : Book P → Type 0
  IsGone b = lookup j b.order_locations ≡ none

  pub lookup-erase_gone :
      {V : Type 0} (k : ℕ) (m : Map V) → lookup j m ≡ none → lookup j (erase k m) ≡ none
  lookup-erase_gone k m h = ground (arith, lookup-erase k j m)

  record_trades-IsGone :
      (b : Book P) (side : Side) (price : ℕ) (level : Level) (ts : List Trade)
      → IsGone b
      → IsGone (record_trades P b side price level ts)
  unfolding record_trades emit_level_change
  record_trades-IsGone b side price level [] h = h
  record_trades-IsGone b side price level (t ∷ ts) h = h

  IsGone-steps : IsKeptBySteps P IsGone
  unfolding cancel_resting_maker emit_level_change
  IsGone-steps = record {
    generated = λ b gen h. h;
    traded = record_trades-IsGone;
    cancelled = λ level side id reason b h.
        option_cases (λ (r : Level × Book P). IsGone r.1) (cancel level id) _ _ (λ _. h)
          (λ found _. lookup-erase_gone id b.order_locations h);
  }

  settle-IsGone : (filled : List (ℕ × ℕ)) (b : Book P) → IsGone b → IsGone (settle P filled b)
  unfolding settle
  settle-IsGone [] b h = h
  settle-IsGone ((id, q) ∷ filled) b h =
      settle-IsGone filled _ (lookup-erase_gone id b.order_locations h)

  finish-IsGone :
      (k : Taker) (mode : MatchMode) (w : Sweep P) → IsGone w.book → IsGone (finish P k mode w).1
  unfolding finish
  finish-IsGone k mode w h =
      let R : Type 0 = Result BookError (MatchOutcome P) × Book P in
      let no_fills = is_empty (trades w.result) in
      if_cases (λ (r : R). IsGone r.1) (w.stp_taker_cancelled && no_fills) _ _ (λ _. h)
        (λ _.
          option_cases (λ (r : R). IsGone r.1) (if no_fills then shortfall k.side mode else none) _
            _ (λ _. h) (λ e _. h))

  sweep-IsGone :
      (k : Taker) (mode : MatchMode) (b : Book P) → IsGone b → IsGone (sweep P k mode b).book
  unfolding sweep
  sweep-IsGone k mode b h =
      let start : Sweep P = record {
        book = b;
        result = new_result k.order_id (initial_match_quantity mode);
        stop = from_mode mode;
        filled_orders = [];
        empty_prices = [];
        stp_taker_cancelled = false;
        post_only_rejected = false;
      } in
      let side = opposite k.side in
      let (levels, w) = walk P b.stp_mode k (best_first k.side (side_levels b side)) start in
      settle-IsGone w.filled_orders
        (put_side w.book side (erase_all w.empty_prices (best_first k.side levels)))
        (walk-Keeps P IsGone IsGone-steps b.stp_mode k (best_first k.side (side_levels b side))
          start h)

  pub match_order_inner-IsGone :
      (b : Book P) (order_id : ℕ) (side : Side) (mode : MatchMode) (user_id : ℕ) (kind : TakerKind)
      → IsGone b
      → IsGone (match_order_inner P b order_id side mode user_id kind).1
  unfolding match_order_inner
  match_order_inner-IsGone b order_id side mode user_id kind h =
      let k = taker_of P b order_id side mode user_id kind in
      if_cases (λ (r : Result BookError (MatchOutcome P) × Book P). IsGone r.1)
        (is_empty (side_levels (entered P b) (opposite side))) _ _ (λ _. h)
        (λ _.
          finish-IsGone k mode (sweep P k mode (entered P b)) (sweep-IsGone k mode (entered P b) h))
