-- ===== src/Matching/PostOnly.antt =====
-- A post-only taker only probes the book (src/orderbook/matching.rs, the `is_post_only` branch).
use mathlib.Core.List.{reverse-reverse}
use order_book_rs.Prelude.{
  ℕ, ◌≡◌, refl, sym, ap, ◌∙◌, subst, false, ◌&&◌, none, option_cases, List, [], ◌∷◌, if◌then◌else◌,
  if_cases, if_true, ◌==◌,
}
use order_book_rs.Prelude.Maps.{Map}
use order_book_rs.Prelude.Result.{Result, ok}
use order_book_rs.Types.{Side, opposite, TakerKind, is_post_only}
use order_book_rs.Error.{StpMode, BookError}
use order_book_rs.PriceLevel.{PriceLevels, PriceLevelLaws}
use order_book_rs.Book.{Book, side_levels, put_side}
use order_book_rs.Matching.Budget.{MatchMode, initial_match_quantity, from_mode, level_qty_cap}
use order_book_rs.Matching.Level.{Sweep, Taker}
use order_book_rs.Matching.Walk.{Round, break, continue, beyond_limit, probe, round, walk}
use order_book_rs.Matching.Submit.{
  MatchOutcome, best_first, erase_all, is_empty, shortfall, finish, settle, sweep,
  match_order_inner, taker_of, entered,
}
use order_book_rs.Matching.Conserve.Rule.{sweep_of}
use order_book_rs.Matching.Conserve.Outcome.{
  OkHolds, of_ok, finish-OkHolds, empty_book_result-OkHolds,
}
use order_book_rs.Matching.Conserve.Price.{trades-finish_result}

abbrev level_of : {P : PriceLevels} → Round P → P.Level
level_of (break level w) = level
level_of (continue level w) = level

module _ (P : PriceLevels) where
  open P use {Level, MatchResult, trades, was_rejected}

  -- Nothing has been matched since `w`.
  abbrev IsSame : Sweep P → Sweep P → Type 0
  IsSame w w' =
      (w'.book ≡ w.book)
      × (w'.result ≡ w.result)
      × (w'.filled_orders ≡ w.filled_orders)
      × (w'.empty_prices ≡ w.empty_prices)
      × (w'.stp_taker_cancelled ≡ w.stp_taker_cancelled)

  best_first-twice :
      {A : Type 0} (side : Side) (levels : List A)
      → best_first side (best_first side levels) ≡ levels
  unfolding best_first
  best_first-twice Side.buy levels = refl
  best_first-twice Side.sell levels = reverse-reverse levels

  put_side-same : (b : Book P) (side : Side) → put_side b side (side_levels b side) ≡ b
  put_side-same b Side.buy = refl
  put_side-same b Side.sell = refl

  module _ (L : PriceLevelLaws P) (mode : StpMode) (k : Taker)
      (post_only : k.kind ≡ TakerKind.post_only) where
    abbrev IsDry : Level → Sweep P → Round P → Type 0
    IsDry level w r = (level_of r ≡ level) × IsSame w (sweep_of r)

    probe-IsDry : (most : ℕ) (level : Level) (w : Sweep P) → IsDry level w (probe P k most level w)
    unfolding probe
    probe-IsDry most level w =
        let gen = w.book.generator in
        let (m, level', gen') = P.match_order level most k.order_id k.kind k.timestamp gen in
        let (none_traded, same_level, same_gen) =
          subst
            (λ kind.
              let (m, l', g') = P.match_order level most k.order_id kind k.timestamp gen in
              (trades m ≡ []) × (l' ≡ level) × (g' ≡ gen))
            (sym post_only) (L.post_only_dry level most k.order_id k.timestamp gen) in
        let same_book : record w.book { generator = gen' } ≡ w.book =
          ap (λ g. record w.book { generator = g }) same_gen in
        if_cases (IsDry level w) (was_rejected m) _ _
          (λ _. (same_level, (same_book, refl, refl, refl, refl)))
          (λ _. (same_level, (same_book, refl, refl, refl, refl)))

    round-IsDry :
        (price : ℕ) (level : Level) (w : Sweep P) → IsDry level w (round P mode k price level w)
    unfolding round
    round-IsDry price level w =
        let still : IsSame w w = (refl, refl, refl, refl, refl) in
        if_cases (IsDry level w) (beyond_limit k.side k.limit price) _ _ (λ _. (refl, still))
          λ _.
            if_cases (IsDry level w) (level_qty_cap w.stop price k.lot == 0) _ _
              (λ _. (refl, still))
              λ _.
                if_true (IsDry level w) (is_post_only k.kind) _ _ (ap is_post_only post_only)
                  (probe-IsDry (level_qty_cap w.stop price k.lot) level w)

    walk-IsDry :
        (levels : Map Level) (w : Sweep P)
        → let (levels', w') = walk P mode k levels w in (levels' ≡ levels) × IsSame w w'
    unfolding walk
    walk-IsDry [] w = (refl, (refl, refl, refl, refl, refl))
    walk-IsDry ((price, level) ∷ levels) w =
        after (round P mode k price level w) (round-IsDry price level w) (walk-IsDry levels)
      where
        after :
            (r : Round P)
            → IsDry level w r
            → ((w : Sweep P)
                → let (levels', w') = walk P mode k levels w in (levels' ≡ levels) × IsSame w w')
            → let (levels', w') = (elim r as (λ _. Map Level × Sweep P) [
              | break level' w' ↦ ((price, level') ∷ levels, w')
              | continue level' w' ↦
                  let (levels', w'') = walk P mode k levels w' in ((price, level') ∷ levels', w'')
            ]) in
              (levels' ≡ (price, level) ∷ levels) × IsSame w w'
        after (break level' w') (e, same) rest = (ap (λ l. (price, l) ∷ levels) e, same)
        after (continue level' w') (e, (b, r, f, p, s)) rest =
            let (es, (b', r', f', p', s')) = rest w' in
            (rw (e, es) refl, (b' ∙ b, r' ∙ r, f' ∙ f, p' ∙ p, s' ∙ s))

  tidy_nothing :
      (k : Taker) (b : Book P) (levels : Map Level) (start w : Sweep P)
      → start.filled_orders ≡ []
      → start.empty_prices ≡ []
      → start.book ≡ b
      → IsSame start w
      → levels ≡ best_first k.side (side_levels b (opposite k.side))
      → settle P w.filled_orders
          (put_side w.book (opposite k.side) (erase_all w.empty_prices (best_first k.side levels)))
        ≡ b
  unfolding settle
  tidy_nothing k b levels start w f0 p0 b0 (bk, r, f, p, s) e =
      rw (f, f0, p, p0, bk, b0, e, best_first-twice k.side (side_levels b (opposite k.side)))
        (put_side-same b (opposite k.side))

  module _ (L : PriceLevelLaws P) (k : Taker) (post_only : k.kind ≡ TakerKind.post_only) where
    sweep-IsDry :
        (how : MatchMode) (b : Book P)
        → let w = sweep P k how b in
          (w.book ≡ b) × (w.result ≡ P.new_result k.order_id (initial_match_quantity how))
    unfolding sweep
    sweep-IsDry how b =
        let start : Sweep P = record {
          book = b;
          result = P.new_result k.order_id (initial_match_quantity how);
          stop = from_mode how;
          filled_orders = [];
          empty_prices = [];
          stp_taker_cancelled = false;
          post_only_rejected = false;
        } in
        let walked =
          walk P b.stp_mode k (best_first k.side (side_levels b (opposite k.side))) start in
        let (e, same) =
          walk-IsDry L b.stp_mode k post_only (best_first k.side (side_levels b (opposite k.side)))
            start in
        (tidy_nothing k b walked.0 start walked.1 refl refl refl same e, same.1)

  -- A book with the resting orders of another.
  abbrev IsRestingAs : Book P → Book P → Type 0
  IsRestingAs b b' = (b'.bids ≡ b.bids) × (b'.asks ≡ b.asks)

  finish-IsRestingAs :
      (k : Taker) (how : MatchMode) (w : Sweep P) → IsRestingAs w.book (finish P k how w).1
  unfolding finish
  finish-IsRestingAs k how w =
      let R : Type 0 = Result BookError (MatchOutcome P) × Book P in
      if_cases (λ (r : R). IsRestingAs w.book r.1)
        (w.stp_taker_cancelled && is_empty (trades w.result)) _ _ (λ _. (refl, refl))
        (λ _.
          option_cases (λ (r : R). IsRestingAs w.book r.1)
            (if is_empty (trades w.result) then shortfall k.side how else none) _ _
            (λ _. (refl, refl)) (λ e _. (refl, refl)))

  module _ (L : PriceLevelLaws P) where
    abbrev IsDryRun : Book P → Result BookError (MatchOutcome P) × Book P → Type 0
    IsDryRun b (r, b') = IsRestingAs b b' × OkHolds P (λ result. trades result ≡ []) r

    finish_dry :
        (k : Taker) (how : MatchMode) (b : Book P) (w : Sweep P)
        → w.book ≡ b
        → trades w.result ≡ []
        → IsDryRun b (finish P k how w)
    finish_dry k how b w e none_traded = (
      subst (λ b'. IsRestingAs b' (finish P k how w).1) e (finish-IsRestingAs k how w),
      finish-OkHolds P (λ result. trades result ≡ []) k how w
          (trades-finish_result P L k.order_id how w.result ∙ none_traded),
    )

    match_order_inner_dry :
        (b : Book P) (order_id : ℕ) (side : Side) (mode : MatchMode) (user_id : ℕ)
        → IsDryRun b (match_order_inner P b order_id side mode user_id TakerKind.post_only)
    unfolding match_order_inner
    match_order_inner_dry b order_id side mode user_id =
        let k = taker_of P b order_id side mode user_id TakerKind.post_only in
        let fresh = L.trades-new order_id (initial_match_quantity mode) in
        let (same_book, same_result) = sweep-IsDry L k refl mode (entered P b) in
        if_cases (IsDryRun b) (is_empty (side_levels (entered P b) (opposite side))) _ _
          (λ _. (
            (refl, refl),
            empty_book_result-OkHolds P (λ result. trades result ≡ []) side mode
                (P.new_result order_id (initial_match_quantity mode)) fresh,
          ))
          (λ _.
            finish_dry k mode (entered P b) (sweep P k mode (entered P b)) same_book
              (ap trades same_result ∙ fresh))

    -- A match of a post-only taker leaves every resting order of both sides where it is, and a result
    -- that it returns has no trade, whatever the mode, the limit and the self-trade prevention.
    pub match_order_inner-post_only :
        (b : Book P) (order_id : ℕ) (side : Side) (mode : MatchMode) (user_id : ℕ)
        → let (r, b') = match_order_inner P b order_id side mode user_id TakerKind.post_only in
          (b'.bids ≡ b.bids)
          × (b'.asks ≡ b.asks)
          × ((o : MatchOutcome P) → r ≡ ok o → trades o.result ≡ [])
    match_order_inner-post_only b order_id side mode user_id =
        let (resting, no_trade) = match_order_inner_dry b order_id side mode user_id in
        (
          resting.0,
          resting.1,
          λ o e.
              of_ok P (λ result. trades result ≡ [])
                (match_order_inner P b order_id side mode user_id TakerKind.post_only).0 o e
                no_trade,
        )
