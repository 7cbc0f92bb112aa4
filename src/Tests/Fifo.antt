-- ===== src/Tests/Fifo.antt =====
-- Price levels for the tests: a queue of orders, matched in order of arrival.
use order_book_rs.Prelude.{
  ℕ, ◌+◌, ◌-◌, ◌≤◌, ◌≡◌, refl, Bool, true, false, not, Option, none, some, List, [], ◌∷◌, ◌++◌,
  ◌==◌, if◌then◌else◌, leb, Bool-cases, inl, inr, sum_of, All, length, arith,
}
use Prim.Native.String.{String}
use order_book_rs.Prelude.Words.{u64_max}
use order_book_rs.Prelude.Result.{Result, ok, err}
use order_book_rs.Types.{TimeInForce, Order, OrderKind, TakerKind}
use order_book_rs.PriceLevel.{PriceLevels, PriceLevelLaws}

pub record Fill : Type 0 where
  pub maker : ℕ
  pub quantity : ℕ
  pub price : ℕ

pub record Report : Type 0 where
  pub fills : List Fill
  pub filled : List ℕ
  pub remaining : ℕ
  pub rejected : Bool

pub record Queue : Type 0 where
  pub price : ℕ
  pub orders : List Order

abbrev quantity_of : Order → ℕ
quantity_of o = elim o.kind [
  | OrderKind.standard q ↦ q
  | OrderKind.post_only q ↦ q
  | OrderKind.trailing_stop q trail reference ↦ q
  | OrderKind.pegged q reference offset ↦ q
  | OrderKind.market_to_limit q ↦ q
  | OrderKind.iceberg visible hidden ↦ visible + hidden
  | OrderKind.reserve visible hidden amount auto ↦ visible + hidden
]

-- The fills of a quantity against a queue, the makers filled, what rests, and what remains.
record Run : Type 0 where
  fills : List Fill
  filled : List ℕ
  rest : List Order
  remaining : ℕ

abbrev run : ℕ → List Order → ℕ → Run
run price [] q = record { fills = []; filled = []; rest = []; remaining = q }
run price (o ∷ os) q =
    let r = run price os (q - quantity_of o) in
    if leb (quantity_of o) q
    then record r {
      fills = record { maker = o.id; quantity = quantity_of o; price = price } ∷ r.fills;
      filled = o.id ∷ r.filled;
    }
    else record {
      fills = record { maker = o.id; quantity = q; price = price } ∷ [];
      filled = [];
      rest = record o { kind = OrderKind.standard (quantity_of o - q) } ∷ os;
      remaining = 0;
    }

run-conserves :
    (price : ℕ) (os : List Order) (q : ℕ)
    → let r = run price os q in sum_of (λ (f : Fill). f.quantity) r.fills + r.remaining ≡ q
run-conserves price [] q = omega arith
run-conserves price (o ∷ os) q = ground (arith, run-conserves price os (q - quantity_of o))

run-price :
    (price : ℕ) (os : List Order) (q : ℕ)
    → All (λ (f : Fill). f.price ≡ price) (run price os q).fills
run-price price [] q = tt
run-price price (o ∷ os) q = ground (arith, run-price price os (q - quantity_of o))

abbrev add : Report → Fill → Option Report
add r f =
    if leb f.quantity r.remaining
    then some (record r { fills = r.fills ++ f ∷ []; remaining = r.remaining - f.quantity })
    else none

abbrev remove : ℕ → List Order → Option (Order × List Order)
remove id [] = none
remove id (o ∷ os) =
    if o.id == id
    then some (o, os)
    else elim (remove id os) [ none ↦ none | some (found, rest) ↦ some (found, o ∷ rest) ]

abbrev take_off : Queue → Option (Order × List Order) → Option (Order × Queue)
take_off l none = none
take_off l (some (o, rest)) = some (o, record l { orders = rest })

abbrev resize : ℕ → ℕ → List Order → Option (Order × List Order)
resize id q [] = none
resize id q (o ∷ os) =
    let o' : Order = record o { kind = OrderKind.standard q } in
    if o.id == id
    then some (o', o' ∷ os)
    else elim (resize id q os) [ none ↦ none | some (found, rest) ↦ some (found, o ∷ rest) ]

abbrev update : Queue → Option (Order × List Order) → Result String (Option Order × Queue)
update l none = ok (none, l)
update l (some (o, orders)) = ok (some o, record l { orders = orders })

abbrev match_queue : Queue → ℕ → ℕ → TakerKind → ℕ → ℕ → Report × Queue × ℕ
match_queue l q id TakerKind.standard ts gen =
    let r = run l.price l.orders q in
    (
      record { fills = r.fills; filled = r.filled; remaining = r.remaining; rejected = false },
      record l { orders = r.rest },
      gen + length r.fills,
    )
match_queue l q id TakerKind.post_only ts gen = (
  record { fills = []; filled = []; remaining = q; rejected = not (length l.orders == 0) },
  l,
  gen,
)

-- A level takes what its total, a word of 64 bits, has room for.
abbrev admit : Queue → Order → Result String (Order × Queue)
admit l o =
    if leb (sum_of quantity_of l.orders + quantity_of o) u64_max
    then ok (o, record l { orders = l.orders ++ o ∷ [] })
    else err "no room"

abbrev pub fifo : PriceLevels
fifo = record {
  Trade = Fill;
  maker_order_id = λ f. f.maker;
  trade_quantity = λ f. f.quantity;
  trade_price = λ f. f.price;
  MatchResult = Report;
  new_result = λ id q. record { fills = []; filled = []; remaining = q; rejected = false };
  trades = λ r. r.fills;
  filled_order_ids = λ r. r.filled;
  remaining_quantity = λ r. r.remaining;
  was_rejected = λ r. r.rejected;
  add_trade = add;
  add_filled_order_id = λ r id. record r { filled = r.filled ++ id ∷ [] };
  visible_quantity = quantity_of;
  hidden_quantity = λ o. 0;
  is_post_only_order = λ o. elim o.kind [ OrderKind.post_only q ↦ true | _ ↦ false ];
  is_immediate =
      λ o. elim o.time_in_force [ TimeInForce.ioc ↦ true | TimeInForce.fok ↦ true | _ ↦ false ];
  is_fill_or_kill = λ o. elim o.time_in_force [ TimeInForce.fok ↦ true | _ ↦ false ];
  is_expired = λ t now close. elim t [ TimeInForce.gtd deadline ↦ leb deadline now | _ ↦ false ];
  Level = Queue;
  new_level = λ price. record { price = price; orders = [] };
  add_order = admit;
  level_price = λ l. l.price;
  level_visible = λ l. sum_of quantity_of l.orders;
  order_count = λ l. length l.orders;
  total_quantity = λ l. ok (sum_of quantity_of l.orders);
  snapshot_by_seq = λ l. l.orders;
  match_order = match_queue;
  matchable_quantity = λ l q id. q - (run l.price l.orders q).remaining;
  cancel = λ l id. take_off l (remove id l.orders);
  update_quantity = λ l id q. update l (resize id q l.orders);
  new_generator = λ namespace. 0;
  with_reduced_quantity = λ o q. record o { kind = OrderKind.standard q };
}

match_queue-conserves :
    (l : Queue) (q id : ℕ) (k : TakerKind) (ts gen : ℕ)
    → let m = (match_queue l q id k ts gen).0 in
      sum_of (λ (f : Fill). f.quantity) m.fills + m.remaining ≡ q
match_queue-conserves l q id TakerKind.standard ts gen = run-conserves l.price l.orders q
match_queue-conserves l q id TakerKind.post_only ts gen = omega arith

match_queue-price :
    (l : Queue) (q id : ℕ) (k : TakerKind) (ts gen : ℕ)
    → All (λ (f : Fill). f.price ≡ l.price) (match_queue l q id k ts gen).0.fills
match_queue-price l q id TakerKind.standard ts gen = run-price l.price l.orders q
match_queue-price l q id TakerKind.post_only ts gen = tt

add-fits :
    (r : Report) (f : Fill)
    → f.quantity ≤ r.remaining
    → add r f ≡ some (record r { fills = r.fills ++ f ∷ []; remaining = r.remaining - f.quantity })
add-fits r f h = ground arith

some_report : (r r' : Report) (f : Fill) → add r f ≡ some r' → r'.fills ≡ r.fills ++ f ∷ []
some_report r r' f e = elim (Bool-cases (leb f.quantity r.remaining)) [
  | inl fits ↦ ground arith
  | inr over ↦ ground arith
]

take_off-price :
    (l l' : Queue) (o : Order) (found : Option (Order × List Order))
    → take_off l found ≡ some (o, l')
    → l'.price ≡ l.price
take_off-price l l' o none e = cc
take_off-price l l' o (some (o', rest)) e = cc

admit-same : (l l' : Queue) (o o' : Order) → admit l o ≡ ok (o', l') → o' ≡ o
admit-same l l' o o' e =
    elim (Bool-cases (leb (sum_of quantity_of l.orders + quantity_of o) u64_max)) [
      | inl room ↦ ground arith
      | inr full ↦ ground arith
    ]

admit-price : (l l' : Queue) (o o' : Order) → admit l o ≡ ok (o', l') → l'.price ≡ l.price
admit-price l l' o o' e =
    elim (Bool-cases (leb (sum_of quantity_of l.orders + quantity_of o) u64_max)) [
      | inl room ↦ ground arith
      | inr full ↦ ground arith
    ]

match_queue-level :
    (l : Queue) (q id : ℕ) (k : TakerKind) (ts gen : ℕ)
    → (match_queue l q id k ts gen).1.price ≡ l.price
match_queue-level l q id TakerKind.standard ts gen = refl
match_queue-level l q id TakerKind.post_only ts gen = refl

update-price :
    (l l' : Queue) (found : Option Order) (found' : Option (Order × List Order))
    → update l found' ≡ ok (found, l')
    → l'.price ≡ l.price
update-price l l' found none e = cc
update-price l l' found (some (o, orders)) e = cc

pub fifo-laws : PriceLevelLaws fifo
fifo-laws = record {
  remaining-new = λ id q. refl;
  trades-new = λ id q. refl;
  add_trade-fits = λ r f h. (
    record r { fills = r.fills ++ f ∷ []; remaining = r.remaining - f.quantity },
    add-fits r f h,
    refl,
    refl,
  );
  add_trade-appends = some_report;
  add_order-admits = admit-same;
  price-match = match_queue-level;
  price-add_order = admit-price;
  price-update_quantity = λ l l' id q found e. update-price l l' found (resize id q l.orders) e;
  price-new = λ price. refl;
  cancel_price = λ l l' o id e. take_off-price l l' o (remove id l.orders) e;
  trades-add_filled = λ r id. refl;
  remaining-add_filled = λ r id. refl;
  match_conserves = match_queue-conserves;
  match_price = match_queue-price;
  post_only_dry = λ l q id ts gen. (refl, refl, refl);
  matchable_quantity-match = λ l q id ts gen. omega (arith, run-conserves l.price l.orders q);
}
