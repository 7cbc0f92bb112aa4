-- ===== src/Matching/Effects/Sides.antt =====
-- A match leaves both sides of the book laid out (src/orderbook/matching.rs, `match_order_inner`).
use order_book_rs.Prelude.{
  ℕ, ◌≡◌, refl, sym, ◌∙◌, subst, ◌&&◌, none, if◌then◌else◌, if_cases, option_cases, List, [], ◌∷◌,
  false,
}
use order_book_rs.Prelude.Maps.{Map}
use order_book_rs.Prelude.Result.{Result}
use order_book_rs.Types.{Side, opposite, TakerKind}
use order_book_rs.Error.{BookError}
use order_book_rs.PriceLevel.{PriceLevels, PriceLevelLaws}
use order_book_rs.Book.{Book, side_levels, put_side, emit_level_change}
use order_book_rs.Layout.{
  IsAscending, IsSide, IsLaidOut, keys-walked, erase_all-IsSide, side_levels-IsSide,
  put_side-IsLaidOut, same_sides-IsLaidOut,
}
use order_book_rs.Matching.Budget.{MatchMode, from_mode, initial_match_quantity}
use order_book_rs.Matching.Level.{Sweep, Taker, record_trades, cancel_resting_maker}
use order_book_rs.Matching.Walk.{walk}
use order_book_rs.Matching.Submit.{
  MatchOutcome, best_first, is_empty, shortfall, settle, finish, sweep, match_order_inner, taker_of,
  entered, erase_all,
}
use order_book_rs.Matching.Conserve.Outcome.{best_first-AllGood}
use order_book_rs.Matching.Effects.Books.{IsKeptBySteps, walk-Keeps}
use order_book_rs.Matching.Effects.Levels.{walk-Each, keys-walk}

module _ (P : PriceLevels) where
  open P use {Level, Trade, level_price, cancel, trades, new_result}

  -- The sides of a book are those of another: no step of a walk touches them.
  abbrev pub HasSides : Book P → Book P → Type 0
  HasSides start b = (b.bids ≡ start.bids) × (b.asks ≡ start.asks)

  record_trades-HasSides :
      (start b : Book P) (side : Side) (price : ℕ) (level : Level) (ts : List Trade)
      → HasSides start b
      → HasSides start (record_trades P b side price level ts)
  unfolding record_trades emit_level_change
  record_trades-HasSides start b side price level [] h = h
  record_trades-HasSides start b side price level (t ∷ ts) h = h

  HasSides-steps : (start : Book P) → IsKeptBySteps P (HasSides start)
  unfolding cancel_resting_maker emit_level_change
  HasSides-steps start = record {
    generated = λ b gen h. h;
    traded = λ b side price level ts h. record_trades-HasSides start b side price level ts h;
    cancelled = λ level side id reason b h.
        option_cases (λ (r : Level × Book P). HasSides start r.1) (cancel level id) _ _ (λ _. h)
          (λ found _. h);
  }

  settle-HasSides :
      (start : Book P) (filled : List (ℕ × ℕ)) (b : Book P)
      → HasSides start b
      → HasSides start (settle P filled b)
  unfolding settle
  settle-HasSides start [] b h = h
  settle-HasSides start ((id, q) ∷ filled) b h = settle-HasSides start filled _ h

  module _ (L : PriceLevelLaws P) where
    -- The walked side, turned back, with the emptied levels taken out.
    walked-IsSide :
        (b : Book P) (k : Taker) (side : Side) (m : Map Level) (w : Sweep P) (prices : List ℕ)
        → IsSide P m
        → IsSide P
            (erase_all prices (best_first side (walk P b.stp_mode k (best_first side m) w).0))
    walked-IsSide b k side m w prices s = erase_all-IsSide P prices _ (record {
      keyed =
          best_first-AllGood P (λ p l. level_price l ≡ p) side
            (walk P b.stp_mode k (best_first side m) w).0
            (walk-Each P (λ p l. level_price l ≡ p)
              (λ p l q id kind ts gen e. L.price-match l q id kind ts gen ∙ e)
              (λ p l l' o id taken e. L.cancel_price l l' o id taken ∙ e) b.stp_mode k
              (best_first side m) w
              (best_first-AllGood P (λ p l. level_price l ≡ p) side m s.keyed));
      ascending =
          subst IsAscending
            (sym (keys-walked side m _ (keys-walk P b.stp_mode k (best_first side m) w)))
            s.ascending;
    })

    finish-HasSides :
        (k : Taker) (mode : MatchMode) (w : Sweep P) → HasSides w.book (finish P k mode w).1
    unfolding finish
    finish-HasSides k mode w =
        let R : Type 0 = Result BookError (MatchOutcome P) × Book P in
        let no_fills = is_empty (trades w.result) in
        if_cases (λ (r : R). HasSides w.book r.1) (w.stp_taker_cancelled && no_fills) _ _
          (λ _. (refl, refl))
          (λ _.
            option_cases (λ (r : R). HasSides w.book r.1)
              (if no_fills then shortfall k.side mode else none) _ _ (λ _. (refl, refl))
              (λ e _. (refl, refl)))

    sweep-IsLaidOut :
        (k : Taker) (mode : MatchMode) (b : Book P)
        → IsLaidOut P b
        → IsLaidOut P (sweep P k mode b).book
    unfolding sweep
    sweep-IsLaidOut k mode b h =
        let start : Sweep P = record {
          book = b;
          result = new_result k.order_id (initial_match_quantity mode);
          stop = from_mode mode;
          filled_orders = [];
          empty_prices = [];
          stp_taker_cancelled = false;
          post_only_rejected = false;
        } in
        let side = opposite k.side in
        let m = side_levels b side in
        let (levels, w) = walk P b.stp_mode k (best_first k.side m) start in
        let kept =
          walk-Keeps P (HasSides b) (HasSides-steps b) b.stp_mode k (best_first k.side m) start
            (refl, refl) in
        let placed = put_side w.book side (erase_all w.empty_prices (best_first k.side levels)) in
        let settled = settle-HasSides placed w.filled_orders placed (refl, refl) in
        same_sides-IsLaidOut P placed (settle P w.filled_orders placed) settled.0 settled.1 (
          put_side-IsLaidOut P w.book side _
            (walked-IsSide b k k.side m start w.empty_prices (side_levels-IsSide P b side h))
            (same_sides-IsLaidOut P b w.book kept.0 kept.1 h))

    pub match_order_inner-IsLaidOut :
        (b : Book P) (order_id : ℕ) (side : Side) (mode : MatchMode) (user_id : ℕ)
        (kind : TakerKind)
        → IsLaidOut P b
        → IsLaidOut P (match_order_inner P b order_id side mode user_id kind).1
    unfolding match_order_inner
    match_order_inner-IsLaidOut b order_id side mode user_id kind h =
        let k = taker_of P b order_id side mode user_id kind in
        let R : Type 0 = Result BookError (MatchOutcome P) × Book P in
        let h' : IsLaidOut P (entered P b) = record {
          bid_side = h.bid_side;
          ask_side = h.ask_side;
        } in
        let w = sweep P k mode (entered P b) in
        let same = finish-HasSides k mode w in
        if_cases (λ (r : R). IsLaidOut P r.1) (is_empty (side_levels (entered P b) (opposite side)))
          _ _ (λ _. h')
          (λ _.
            same_sides-IsLaidOut P w.book (finish P k mode w).1 same.0 same.1
              (sweep-IsLaidOut k mode (entered P b) h'))
