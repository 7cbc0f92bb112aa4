-- ===== src/Types.antt =====
-- The enumerations of the `pricelevel` crate, with the constructors that the source matches on and
-- builds. Identifiers (`Id`), accounts (`Hash32`), prices, quantities and timestamps are numbers; the
-- anonymous account `Hash32::zero()` is 0.
use order_book_rs.Prelude.{ℕ, Bool, true, false, Option}
use order_book_rs.Prelude.Int.{ℤ}

pub data Side : Type 0 where
  buy sell : Side

unfoldable pub opposite : Side → Side
opposite Side.buy = Side.sell
opposite Side.sell = Side.buy

pub data TakerKind : Type 0 where
  standard post_only : TakerKind

abbrev pub is_post_only : TakerKind → Bool
is_post_only TakerKind.standard = false
is_post_only TakerKind.post_only = true

pub data TimeInForce : Type 0 where
  gtc ioc fok day : TimeInForce
  gtd : ℕ → TimeInForce

pub data PegReferenceType : Type 0 where
  best_bid best_ask mid_price last_trade : PegReferenceType

-- The quantities of an order by its kind: visible and hidden, with a reserve's replenishment. A trailing
-- stop has its trail and its last reference price, a peg its reference and the offset from it.
pub data OrderKind : Type 0 where
  standard post_only market_to_limit : ℕ → OrderKind
  trailing_stop : ℕ → ℕ → ℕ → OrderKind
  pegged : ℕ → PegReferenceType → ℤ → OrderKind
  iceberg : ℕ → ℕ → OrderKind
  reserve : ℕ → ℕ → Option ℕ → Bool → OrderKind

-- `OrderType<()>`: what every constructor carries, and the kind.
pub record Order : Type 0 where
  pub id : ℕ
  pub user_id : ℕ
  pub price : ℕ
  pub side : Side
  pub timestamp : ℕ
  pub time_in_force : TimeInForce
  pub kind : OrderKind
