-- ===== src/PriceLevel.antt =====
-- The `pricelevel` crate as far as the engine uses it: price levels, match results and trades, which
-- the repository does not contain. Its types and operations are a parameter of the model, and what
-- the engine relies on is the record of laws below. A call that mutates a level returns the new one;
-- the generator of trade ids is a number that a match advances.
use order_book_rs.Prelude.{
  ℕ, ◌+◌, ◌-◌, ◌≤◌, ◌≡◌, Bool, Option, some, List, [], ◌∷◌, ◌++◌, sum_of, All, min,
}
use Prim.Native.String.{String}
use order_book_rs.Prelude.Result.{Result, ok}
use order_book_rs.Types.{TimeInForce, Order, TakerKind}

pub record PriceLevels : Type 1 where
  pub Trade : Type 0
  pub maker_order_id : Trade → ℕ
  pub trade_quantity : Trade → ℕ
  pub trade_price : Trade → ℕ
  pub MatchResult : Type 0
  -- `MatchResult::new(order_id, quantity)`
  pub new_result : ℕ → ℕ → MatchResult
  pub trades : MatchResult → List Trade
  pub filled_order_ids : MatchResult → List ℕ
  pub remaining_quantity : MatchResult → ℕ
  pub was_rejected : MatchResult → Bool
  -- `none` is its `Err`, which leaves the result as it was.
  pub add_trade : MatchResult → Trade → Option MatchResult
  pub add_filled_order_id : MatchResult → ℕ → MatchResult
  pub visible_quantity : Order → ℕ
  pub hidden_quantity : Order → ℕ
  pub is_post_only_order : Order → Bool
  pub is_immediate : Order → Bool
  pub is_fill_or_kill : Order → Bool
  -- `TimeInForce::is_expired(now, market_close)`
  pub is_expired : TimeInForce → ℕ → Option ℕ → Bool
  pub Level : Type 0
  -- `PriceLevel::new(price)`
  pub new_level : ℕ → Level
  -- `add_order`: the order as it was admitted.
  pub add_order : Level → Order → Result String (Order × Level)
  pub level_price : Level → ℕ
  pub level_visible : Level → ℕ
  pub order_count : Level → ℕ
  -- `total_quantity()`: an error of the crate is its text.
  pub total_quantity : Level → Result String ℕ
  -- `snapshot_by_seq_into`: the resting orders in insertion order. `iter_orders` gives the same orders,
  -- and an id rests once on a level.
  pub snapshot_by_seq : Level → List Order
  -- `match_order` of a quantity, for a taker's id and kind at a time, with the generator.
  pub match_order : Level → ℕ → ℕ → TakerKind → ℕ → ℕ → MatchResult × Level × ℕ
  -- `matchable_quantity(cap, taker_id)`
  pub matchable_quantity : Level → ℕ → ℕ → ℕ
  -- `update_order(Cancel)`: the order that it took off the level, if any.
  pub cancel : Level → ℕ → Option (Order × Level)
  -- `update_order(UpdateQuantity)`: the order as it rests then, or nothing if it does not rest.
  pub update_quantity : Level → ℕ → ℕ → Result String (Option Order × Level)
  -- `UuidGenerator::new`, of a namespace.
  pub new_generator : ℕ → ℕ
  -- `with_reduced_quantity`: the order that such an update stores.
  pub with_reduced_quantity : Order → ℕ → Order

-- What the engine relies on.
pub record PriceLevelLaws (P : PriceLevels) : Type 0 where
  pub remaining-new : (id q : ℕ) → P.remaining_quantity (P.new_result id q) ≡ q
  pub trades-new : (id q : ℕ) → P.trades (P.new_result id q) ≡ []
  -- `add_trade` fails on underflow only.
  pub add_trade-fits :
      (r : P.MatchResult) (t : P.Trade)
      → P.trade_quantity t ≤ P.remaining_quantity r
      → (r' : P.MatchResult) × (P.add_trade r t ≡ some r')
        × (P.trades r' ≡ P.trades r ++ t ∷ [])
        × (P.remaining_quantity r' ≡ P.remaining_quantity r - P.trade_quantity t)
  -- One that succeeds appends the trade.
  pub add_trade-appends :
      (r r' : P.MatchResult) (t : P.Trade)
      → P.add_trade r t ≡ some r'
      → P.trades r' ≡ P.trades r ++ t ∷ []
  -- A cancel leaves the price of a level.
  pub cancel_price :
      (l l' : P.Level) (o : Order) (id : ℕ)
      → P.cancel l id ≡ some (o, l')
      → P.level_price l' ≡ P.level_price l
  -- So do a match, an admission and an update of a quantity, and a new level has the price given.
  pub price-match :
      (l : P.Level) (q id : ℕ) (k : TakerKind) (ts gen : ℕ)
      → P.level_price (P.match_order l q id k ts gen).1 ≡ P.level_price l
  pub price-add_order :
      (l l' : P.Level) (o o' : Order)
      → P.add_order l o ≡ ok (o', l')
      → P.level_price l' ≡ P.level_price l
  pub price-update_quantity :
      (l l' : P.Level) (id q : ℕ) (found : Option Order)
      → P.update_quantity l id q ≡ ok (found, l')
      → P.level_price l' ≡ P.level_price l
  pub price-new : (price : ℕ) → P.level_price (P.new_level price) ≡ price
  pub trades-add_filled :
      (r : P.MatchResult) (id : ℕ) → P.trades (P.add_filled_order_id r id) ≡ P.trades r
  pub remaining-add_filled :
      (r : P.MatchResult) (id : ℕ)
      → P.remaining_quantity (P.add_filled_order_id r id) ≡ P.remaining_quantity r
  -- A level admits the order that it is given.
  pub add_order-admits : (l l' : P.Level) (o o' : Order) → P.add_order l o ≡ ok (o', l') → o' ≡ o
  -- A match accounts for the whole quantity that it is given: traded, or remaining.
  pub match_conserves :
      (l : P.Level) (q id : ℕ) (k : TakerKind) (ts gen : ℕ)
      → let m = (P.match_order l q id k ts gen).0 in
        sum_of P.trade_quantity (P.trades m) + P.remaining_quantity m ≡ q
  -- A maker trades at the price of its level.
  pub match_price :
      (l : P.Level) (q id : ℕ) (k : TakerKind) (ts gen : ℕ)
      → All (λ t. P.trade_price t ≡ P.level_price l) (P.trades (P.match_order l q id k ts gen).0)
  -- A post-only taker is a dry run.
  pub post_only_dry :
      (l : P.Level) (q id ts gen : ℕ)
      → let (m, l', gen') = P.match_order l q id TakerKind.post_only ts gen in
        (P.trades m ≡ []) × (l' ≡ l) × (gen' ≡ gen)
  -- `matchable_quantity` is the dry run of a standard match.
  pub matchable_quantity-match :
      (l : P.Level) (q id ts gen : ℕ)
      → min (P.matchable_quantity l q id) q
          + P.remaining_quantity (P.match_order l q id TakerKind.standard ts gen).0
        ≡ q
