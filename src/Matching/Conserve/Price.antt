-- ===== src/Matching/Conserve/Price.antt =====
-- The prices of the trades of a match (src/orderbook/matching.rs, `match_order_inner`).
use order_book_rs.Prelude.{
  ℕ, ◌≡◌, refl, sym, subst, false, Option, none, some, option_cases, List, [], ◌∷◌, ◌++◌, All,
  All-append, All-map, ◌∙◌, ap, append_assoc, append-nil,
}
use order_book_rs.Prelude.Result.{ok}
use order_book_rs.Types.{Side, opposite, TakerKind}
use order_book_rs.Error.{StpMode}
use order_book_rs.PriceLevel.{PriceLevels, PriceLevelLaws}
use order_book_rs.Book.{Book, side_levels}
use order_book_rs.Matching.Budget.{MatchMode, initial_match_quantity, limit_price, StopCondition}
use order_book_rs.Matching.Level.{Taker, execute, process_level_match, add_or_keep, add_trades}
use order_book_rs.Matching.Walk.{beyond_limit}
use order_book_rs.Matching.Submit.{
  MatchOutcome, match_order_inner, rebuild, executed_sum, normalize, finish_result, taker_of,
}
use order_book_rs.Matching.Conserve.Rule.{Keeps}
use order_book_rs.Matching.Conserve.Results.{trades-add_all}
use order_book_rs.Matching.Conserve.Outcome.{of_ok, match_order_inner-OkHolds}

module _ (P : PriceLevels) (L : PriceLevelLaws P) where
  open P use {
    Trade, trade_price, Level, level_price, MatchResult, trades, filled_order_ids, add_trade,
    match_order,
  }
  open L use {match_price, add_trade-appends, trades-new, cancel_price}

  module _ (Q : Trade → Type 0) where
    add_trades-All :
        (r : MatchResult) (ts : List Trade)
        → All Q (trades r)
        → All Q ts
        → All Q (trades (add_trades P r ts))
    unfolding add_trades add_or_keep
    add_trades-All r [] h hs = h
    add_trades-All r (t ∷ ts) h hs =
        add_trades-All (add_or_keep P r t) ts
          (option_cases (λ r'. All Q (trades r')) (add_trade r t) _ _ (λ _. h)
            (λ r' e.
              subst (All Q) (sym (add_trade-appends r r' t e))
                (All-append Q (trades r) (t ∷ []) h (hs.0, tt))))
          hs.1

  abbrev SomeHolds : (MatchResult → Type 0) → Option MatchResult → Type 0
  SomeHolds Q none = Unit
  SomeHolds Q (some r) = Q r

  trades-rebuild :
      (ts : List Trade) (r : MatchResult)
      → SomeHolds (λ r'. trades r' ≡ trades r ++ ts) (rebuild P r ts)
  unfolding rebuild
  trades-rebuild [] r = sym (append-nil (trades r))
  trades-rebuild (t ∷ ts) r =
      option_cases (SomeHolds (λ r'. trades r' ≡ trades r ++ t ∷ ts)) (add_trade r t) _ _ (λ _. tt)
        (λ r' e.
          subst (λ xs. SomeHolds (λ r''. trades r'' ≡ xs) (rebuild P r' ts))
            (rw (add_trade-appends r r' t e) (append_assoc (trades r) (t ∷ []) ts))
            (trades-rebuild ts r'))

  -- Normalising the result of a notional match keeps its trades.
  pub trades-normalize : (id : ℕ) (r : MatchResult) → trades (normalize P id r) ≡ trades r
  unfolding normalize
  trades-normalize id r =
      let start = P.new_result id (executed_sum P 0 (trades r)) in
      option_cases (λ r'. trades r' ≡ trades r) (rebuild P start (trades r)) _ _ (λ _. refl)
        (λ r' e.
          trades-add_all P L r' (filled_order_ids r)
          ∙ subst (SomeHolds (λ r'. trades r' ≡ trades start ++ trades r)) e
              (trades-rebuild (trades r) start)
          ∙ ap (λ xs. xs ++ trades r) (trades-new id (executed_sum P 0 (trades r))))

  pub trades-finish_result :
      (id : ℕ) (mode : MatchMode) (r : MatchResult) → trades (finish_result P id mode r) ≡ trades r
  unfolding finish_result
  trades-finish_result id (MatchMode.base_qty quantity limit) r = refl
  trades-finish_result id (MatchMode.quote_amount amount) r = trades-normalize id r

  -- The level stands at its key.
  abbrev pub IsAt : ℕ → Level → Type 0
  IsAt price level = level_price level ≡ price

  -- Within the limit of a taker.
  abbrev pub IsWithin : Side → Option ℕ → Trade → Type 0
  IsWithin side limit t = beyond_limit side limit (trade_price t) ≡ false

  abbrev AllWithin : Side → Option ℕ → MatchResult → StopCondition → Type 0
  AllWithin side limit r stop = All (IsWithin side limit) (trades r)

  execute-AllWithin :
      (mode : StpMode) (k : Taker) (price : ℕ)
      → Keeps P IsAt (AllWithin k.side k.limit) mode k price
  unfolding execute process_level_match
  execute-AllWithin mode k price qty level w allowed at h a =
      let (m, level', gen) = match_order level qty k.order_id k.kind k.timestamp w.book.generator in
      subst (All (IsWithin k.side k.limit))
        (sym (trades-add_all P L (add_trades P w.result (trades m)) (filled_order_ids m)))
        (add_trades-All (IsWithin k.side k.limit) w.result (trades m) a (
          All-map (λ t. trade_price t ≡ level_price level) (IsWithin k.side k.limit)
            (λ t e. rw (e, at) allowed) (trades m)
            (match_price level qty k.order_id k.kind k.timestamp w.book.generator)))

  -- In a book whose levels stand at their keys, no trade of a match is at a price beyond the limit of
  -- the taker: a buyer never pays more, a seller never gets less.
  pub match_order_inner-within_limit :
      (b : Book P) (order_id : ℕ) (side : Side) (mode : MatchMode) (user_id : ℕ) (kind : TakerKind)
      (o : MatchOutcome P)
      → All (λ (e : ℕ × Level). level_price e.1 ≡ e.0) (side_levels b (opposite side))
      → (match_order_inner P b order_id side mode user_id kind).0 ≡ ok o
      → All (λ t. beyond_limit side (limit_price mode) (trade_price t) ≡ false) (trades o.result)
  match_order_inner-within_limit b order_id side mode user_id kind o good e =
      let Q : MatchResult → Type 0 = λ r. All (IsWithin side (limit_price mode)) (trades r) in
      let new_result : Q (P.new_result order_id (initial_match_quantity mode)) =
        subst (All (IsWithin side (limit_price mode)))
          (sym (trades-new order_id (initial_match_quantity mode))) tt in
      of_ok P Q _ o e (
        match_order_inner-OkHolds P IsAt (AllWithin side (limit_price mode)) Q b order_id side mode
          user_id kind (λ price l l' o id c at. cancel_price l l' o id c ∙ at)
          (execute-AllWithin b.stp_mode (taker_of P b order_id side mode user_id kind)) new_result
          (λ r stop h.
            subst (All (IsWithin side (limit_price mode)))
              (sym (trades-finish_result order_id mode r)) h)
          new_result good)
