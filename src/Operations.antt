-- ===== src/Operations.antt =====
-- The public entries of src/orderbook/operations.rs, and the market and limit matches of
-- src/orderbook/book.rs that they call. The extra fields of an order are left out, as everywhere.
pub mod Effects
use order_book_rs.Prelude.{ℕ, Bool, false, Option, none, some}
use order_book_rs.Prelude.Result.{Result, ok, err}
use order_book_rs.Types.{Side, Order, OrderKind, TimeInForce}
use order_book_rs.Error.{BookError}
use order_book_rs.PriceLevel.{PriceLevels}
use order_book_rs.Clock.{now_millis}
use order_book_rs.Risk.{check_market_admission}
use order_book_rs.Book.{Book}
use order_book_rs.Queries.{check_kill_switch_or_reject}
use order_book_rs.Matching.Submit.{match_order_with_user, match_order_by_amount_with_user}
use order_book_rs.Submission.Shape.{◌then_in◌}
use order_book_rs.Submission.Add.{Answer, report_trades, add_order, add_order_with_result}

module _ (P : PriceLevels) where
  open P use {MatchResult}

  -- The report of the trades of a match, which only the listener wants.
  unfoldable pub reported :
      Result BookError MatchResult × Book P → Result BookError MatchResult × Book P
  unfolding report_trades
  reported r = r then_in (λ m b. (ok m, (report_trades P b m false).1))

  -- `match_market_order_with_user`
  unfoldable pub match_market_order_with_user :
      Book P → ℕ → ℕ → Side → ℕ → Result BookError MatchResult × Book P
  unfolding match_order_with_user reported
  match_market_order_with_user b order_id quantity side user_id =
      reported (match_order_with_user P b order_id side quantity none user_id)

  unfoldable pub match_market_order : Book P → ℕ → ℕ → Side → Result BookError MatchResult × Book P
  unfolding match_market_order_with_user
  match_market_order b order_id quantity side =
      match_market_order_with_user b order_id quantity side 0

  unfoldable pub match_market_order_by_amount_with_user :
      Book P → ℕ → ℕ → Side → ℕ → Result BookError MatchResult × Book P
  unfolding match_order_by_amount_with_user reported
  match_market_order_by_amount_with_user b order_id amount side user_id =
      reported (match_order_by_amount_with_user P b order_id side amount user_id)

  unfoldable pub match_market_order_by_amount :
      Book P → ℕ → ℕ → Side → Result BookError MatchResult × Book P
  unfolding match_market_order_by_amount_with_user
  match_market_order_by_amount b order_id amount side =
      match_market_order_by_amount_with_user b order_id amount side 0

  unfoldable pub match_limit_order_with_user :
      Book P → ℕ → ℕ → Side → ℕ → ℕ → Result BookError MatchResult × Book P
  unfolding match_order_with_user reported
  match_limit_order_with_user b order_id quantity side limit_price user_id =
      reported (match_order_with_user P b order_id side quantity (some limit_price) user_id)

  unfoldable pub match_limit_order :
      Book P → ℕ → ℕ → Side → ℕ → Result BookError MatchResult × Book P
  unfolding match_limit_order_with_user
  match_limit_order b order_id quantity side limit_price =
      match_limit_order_with_user b order_id quantity side limit_price 0

  unfoldable pub submit_market_order_with_user :
      Book P → ℕ → ℕ → Side → ℕ → Result BookError MatchResult × Book P
  unfolding check_kill_switch_or_reject check_market_admission match_market_order_with_user
  submit_market_order_with_user b id quantity side user_id =
      check_kill_switch_or_reject P b id
      then_in (λ _ b. (check_market_admission b.risk_state user_id, b))
      then_in (λ _ b. match_market_order_with_user b id quantity side user_id)

  unfoldable pub submit_market_order : Book P → ℕ → ℕ → Side → Result BookError MatchResult × Book P
  unfolding check_kill_switch_or_reject check_market_admission match_market_order
  submit_market_order b id quantity side =
      check_kill_switch_or_reject P b id
      then_in (λ _ b. (check_market_admission b.risk_state 0, b))
      then_in (λ _ b. match_market_order b id quantity side)

  unfoldable pub submit_market_order_by_amount_with_user :
      Book P → ℕ → ℕ → Side → ℕ → Result BookError MatchResult × Book P
  unfolding check_kill_switch_or_reject check_market_admission
      match_market_order_by_amount_with_user
  submit_market_order_by_amount_with_user b id amount side user_id =
      check_kill_switch_or_reject P b id
      then_in (λ _ b. (check_market_admission b.risk_state user_id, b))
      then_in (λ _ b. match_market_order_by_amount_with_user b id amount side user_id)

  unfoldable pub submit_market_order_by_amount :
      Book P → ℕ → ℕ → Side → Result BookError MatchResult × Book P
  unfolding check_kill_switch_or_reject check_market_admission match_market_order_by_amount
  submit_market_order_by_amount b id amount side =
      check_kill_switch_or_reject P b id
      then_in (λ _ b. (check_market_admission b.risk_state 0, b))
      then_in (λ _ b. match_market_order_by_amount b id amount side)

  -- What an order is built from, its timestamp and its kind apart.
  pub record Ticket : Type 0 where
    pub id : ℕ
    pub price : ℕ
    pub side : Side
    pub time_in_force : TimeInForce
    pub user_id : ℕ

  abbrev pub order_of : Ticket → OrderKind → ℕ → Order
  order_of t kind timestamp = record {
    id = t.id;
    user_id = t.user_id;
    price = t.price;
    side = t.side;
    timestamp = timestamp;
    time_in_force = t.time_in_force;
    kind = kind;
  }

  -- The gate, and then the clock, which stamps the order.
  unfoldable pub stamped :
      {A : Type 0}
      → Book P
      → Ticket
      → OrderKind
      → (Book P → Order → Result BookError A × Book P)
      → Result BookError A × Book P
  unfolding check_kill_switch_or_reject
  stamped b t kind submit = check_kill_switch_or_reject P b t.id then_in (λ _ b.
      let (now, clock) = now_millis b.clock in
      submit (record b { clock = clock }) (order_of t kind now))

  -- `add_limit_order_with_user`; `add_limit_order` passes the anonymous account, 0.
  unfoldable pub add_limit_order_with_user : Book P → Ticket → ℕ → Result BookError Order × Book P
  unfolding stamped add_order
  add_limit_order_with_user b t quantity = stamped b t (OrderKind.standard quantity) (add_order P)

  unfoldable pub add_limit_order_with_user_and_result :
      Book P → Ticket → ℕ → Result BookError (Answer P) × Book P
  unfolding stamped add_order_with_result
  add_limit_order_with_user_and_result b t quantity =
      stamped b t (OrderKind.standard quantity) (add_order_with_result P)

  unfoldable pub add_iceberg_order_with_user :
      Book P → Ticket → ℕ → ℕ → Result BookError Order × Book P
  unfolding stamped add_order
  add_iceberg_order_with_user b t visible_quantity hidden_quantity =
      stamped b t (OrderKind.iceberg visible_quantity hidden_quantity) (add_order P)

  unfoldable pub add_post_only_order_with_user :
      Book P → Ticket → ℕ → Result BookError Order × Book P
  unfolding stamped add_order
  add_post_only_order_with_user b t quantity =
      stamped b t (OrderKind.post_only quantity) (add_order P)
