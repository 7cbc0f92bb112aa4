-- ===== src/Matching/Conserve/Results.antt =====
-- The result that a walk accumulates (src/orderbook/matching.rs, `process_level_match`).
use order_book_rs.Prelude.{
  ℕ, ◌+◌, ◌≤◌, ◌≡◌, refl, ◌∙◌, none, some, List, [], ◌∷◌, ◌++◌, sum_of, arith, append_assoc,
  append-nil, sym, subst,
}
use order_book_rs.PriceLevel.{PriceLevels, PriceLevelLaws}
use order_book_rs.Matching.Level.{add_or_keep, add_trades, add_filled}

module _ (P : PriceLevels) (L : PriceLevelLaws P) where
  open P use {Trade, trade_quantity, MatchResult, trades, remaining_quantity, add_trade}
  open L use {add_trade-fits, trades-add_filled, remaining-add_filled}

  -- A result `r'` that is `r` with the trades `ts`.
  abbrev pub IsWith : MatchResult → List Trade → MatchResult → Type 0
  IsWith r ts r' =
      (trades r' ≡ trades r ++ ts)
      × (remaining_quantity r' + sum_of trade_quantity ts ≡ remaining_quantity r)

  add_or_keep-fits :
      (r : MatchResult) (t : Trade)
      → trade_quantity t ≤ remaining_quantity r
      → IsWith r (t ∷ []) (add_or_keep P r t)
  unfolding add_or_keep
  add_or_keep-fits r t h =
      let (r', e, et, er) = add_trade-fits r t h in
      subst (λ o. IsWith r (t ∷ []) (elim o as (λ _. MatchResult) [ none ↦ r | some r' ↦ r' ]))
        (sym e) (et, omega (arith, er, h))

  -- Trades whose sum is within what remains are all added.
  pub add_trades-fits :
      (r : MatchResult) (ts : List Trade)
      → sum_of trade_quantity ts ≤ remaining_quantity r
      → IsWith r ts (add_trades P r ts)
  unfolding add_trades
  add_trades-fits r [] h = (sym (append-nil (trades r)), omega arith)
  add_trades-fits r (t ∷ ts) h =
      let (e, q) = add_or_keep-fits r t (omega (arith, h)) in
      let (e', q') = add_trades-fits (add_or_keep P r t) ts (omega (arith, h, q)) in
      (rw (e', e, append_assoc) refl, omega (arith, q, q'))

  pub trades-add_all : (r : MatchResult) (ids : List ℕ) → trades (add_filled P r ids) ≡ trades r
  unfolding add_filled
  trades-add_all r [] = refl
  trades-add_all r (id ∷ ids) =
      trades-add_all (P.add_filled_order_id r id) ids ∙ trades-add_filled r id

  pub remaining-add_all :
      (r : MatchResult) (ids : List ℕ)
      → remaining_quantity (add_filled P r ids) ≡ remaining_quantity r
  unfolding add_filled
  remaining-add_all r [] = refl
  remaining-add_all r (id ∷ ids) =
      remaining-add_all (P.add_filled_order_id r id) ids ∙ remaining-add_filled r id
