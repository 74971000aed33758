-- ===== src/Exchange/Book.antt =====
-- orderbook.py, with its two heaps as heapq keeps them. Comparing two different orders of the same
-- price and time raises, and leaves the heap as it stands then.
pub mod Laws
pub mod Infinite
use zlttbots.Prelude.{
  ℕ, zero, suc, ◌+◌, Bool, true, false, not, ◌&&◌, ◌||◌, String, str_eq, Option, none, some, List,
  [], ◌∷◌, ◌++◌, length, Outcome, ok, raised, value_error, type_error, raise_if, ◌>>◌, ◌>>=◌,
  concat, truthy, if◌then◌else◌,
}
use zlttbots.Exchange.Floats.{Floats}
use zlttbots.Exchange.Heap.{heappush, heappop}

module _ (fl : Floats) where
  pub record Order : Type 0 where
    pub side : String
    pub price : fl.Float
    pub qty : fl.Float
    pub oid : Option String
    pub ts : fl.Float
    pub id : String

  -- `(key, ts, order)`: the key of a buy is its price, negated
  pub record Entry : Type 0 where
    pub key : fl.Float
    pub ts : fl.Float
    pub order : Order

  pub record OrderBook : Type 0 where
    pub buys : List Entry
    pub sells : List Entry

  pub record Trade : Type 0 where
    pub buy_order_id : String
    pub sell_order_id : String
    pub price : fl.Float
    pub qty : fl.Float

  -- `self.oid or f"{self.side}-{self.ts:.6f}"`
  abbrev pub id_of : String → fl.Float → Option String → String
  id_of side ts none = concat (side ∷ "-" ∷ fl.show_6 ts ∷ [])
  id_of side ts (some oid) = if truthy oid then oid else concat (side ∷ "-" ∷ fl.show_6 ts ∷ [])

  -- `x <= 0`
  abbrev pub not_positive : fl.Float → Bool
  not_positive x = fl.less x fl.zero_float || fl.equal x fl.zero_float

  -- `min(a, b)`
  abbrev pub smaller : fl.Float → fl.Float → fl.Float
  smaller a b = if fl.less b a then b else a

abbrev pub same_oid : Option String → Option String → Bool
same_oid none none = true
same_oid (some a) (some b) = str_eq a b
same_oid _ _ = false

module _ {fl : Floats} where
  -- `Order(side, price, qty, oid, ts)`
  unfoldable pub new_order :
      String → fl.Float → fl.Float → Option String → fl.Float → Outcome (Order fl)
  new_order side price qty oid ts = do
    raise_if (not (str_eq side "buy" || str_eq side "sell"))
        (value_error "side must be 'buy' or 'sell'")
    raise_if (not_positive fl price || not_positive fl qty)
        (value_error "price and qty must be positive")
    ok (record {
      side = side;
      price = price;
      qty = qty;
      oid = oid;
      ts = ts;
      id = id_of fl side ts oid;
    })

  -- `a == b`, which compares the fields
  abbrev pub same_order : Order fl → Order fl → Bool
  same_order a b =
      str_eq a.side b.side
      && fl.equal a.price b.price
      && fl.equal a.qty b.qty
      && same_oid a.oid b.oid
      && fl.equal a.ts b.ts

  -- `(a.key, a.ts, a.order) < (b.key, b.ts, b.order)`: orders are never compared by `<`
  unfoldable pub before : Entry fl → Entry fl → Outcome Bool
  before a b =
      if not (fl.equal a.key b.key)
      then ok (fl.less a.key b.key)
      else if not (fl.equal a.ts b.ts)
      then ok (fl.less a.ts b.ts)
      else if same_order a.order b.order
      then ok false
      else raised (type_error "'<' not supported between instances of 'Order' and 'Order'")

  unfoldable pub add : Order fl → OrderBook fl → Outcome (Unit {0}) × OrderBook fl
  unfolding heappush before
  add o b =
      let (bought, buys) =
        heappush before (record { key = fl.negate o.price; ts = o.ts; order = o }) b.buys in
      let (sold, sells) =
        heappush before (record { key = o.price; ts = o.ts; order = o }) b.sells in
      if str_eq o.side "buy"
      then (bought, record b { buys = buys })
      else (sold, record b { sells = sells })

  -- `order.qty -= qty`
  abbrev pub reduced : fl.Float → Entry fl → Entry fl
  reduced qty e = record e { order = record e.order { qty = fl.minus e.order.qty qty } }

  -- `heappop` once nothing is left of the first order
  unfoldable pub settle : Entry fl → List (Entry fl) → Outcome (Unit {0}) × List (Entry fl)
  unfolding heappop before
  settle e rest =
      let popped = heappop before (e ∷ rest) in
      if fl.equal e.order.qty fl.zero_float then popped else (ok tt, e ∷ rest)

  -- the price that the buyer asks is below that of the seller
  abbrev pub apart : Entry fl → Entry fl → Bool
  apart buy sell = fl.less (fl.negate buy.key) sell.key

  -- the heaps behind a trade, for what becomes of each and for the sellers' heap before its pop
  unfoldable pub both_settled :
      Outcome (Unit {0}) × List (Entry fl)
      → Outcome (Unit {0}) × List (Entry fl)
      → List (Entry fl)
      → Outcome (Unit {0}) × OrderBook fl
  both_settled (raised e, buys) sold sells = (raised e, record { buys = buys; sells = sells })
  both_settled (ok _, buys) (sold, sells') sells = (sold, record { buys = buys; sells = sells' })

  -- a trade between the two heads, and what it comes to
  abbrev pub traded :
      Entry fl
      → List (Entry fl)
      → Entry fl
      → List (Entry fl)
      → Trade fl × Outcome (Unit {0}) × OrderBook fl
  traded buy buys sell sells =
      let qty = smaller fl buy.order.qty sell.order.qty in
      let settled =
        both_settled (settle (reduced qty buy) buys) (settle (reduced qty sell) sells)
          (reduced qty sell ∷ sells) in
      (
        record {
          buy_order_id = buy.order.id;
          sell_order_id = sell.order.id;
          price = sell.key;
          qty = qty;
        },
        settled.0,
        settled.1,
      )

  -- a round of `match` on the two heaps; `none` is the end of the loop
  unfoldable pub match_heads :
      List (Entry fl) → List (Entry fl) → Option (Trade fl × Outcome (Unit {0}) × OrderBook fl)
  unfolding settle both_settled
  match_heads [] sells = none
  match_heads (buy ∷ buys) [] = none
  match_heads (buy ∷ buys) (sell ∷ sells) =
      if apart buy sell then none else some (traded buy buys sell sells)

  -- `match`, with the trades so far; `none` is the fuel at its end
  unfoldable pub match_from :
      ℕ → List (Trade fl) → OrderBook fl → Option (Outcome (List (Trade fl)) × OrderBook fl)
  match_from zero trades b = none
  match_from (suc fuel) trades b = elim (match_heads b.buys b.sells) [
    | none ↦ some (ok trades, b)
    | some (t, raised e, b') ↦ some (raised e, b')
    | some (t, ok _, b') ↦ match_from fuel (trades ++ t ∷ []) b'
  ]

  -- Each round takes an order out of the book.
  unfoldable pub match_orders : OrderBook fl → Option (Outcome (List (Trade fl)) × OrderBook fl)
  unfolding match_from
  match_orders b = match_from (suc (length b.buys + length b.sells)) [] b
