-- ===== src/Arbitrage/Market.antt =====
-- engine/arbitrage.py, and the part of core/database.py and api/server.py that deals with products,
-- payouts and reports. Floats and the normal form of a name are parameters.
pub mod Laws
use zlttbots.Prelude.{
  ℕ, ◌+◌, Bool, true, false, not, ◌||◌, ◌&&◌, String, str_eq, text_leb, pair_eq, string_eq, Option,
  none, some, List, [], ◌∷◌, ◌++◌, map, length, take, keep_if, if◌then◌else◌, ltb, ◌==◌,
}
use zlttbots.Prelude.Dict.{Dict, insert, get_or, lookup}
use zlttbots.Prelude.Sorting.{sorted}
use zlttbots.Arbitrage.Queue.{PublishingStore, PublishResult}

-- what the code does with floats, and with names: `name.strip().lower()`
pub record Numbers : Type 1 where
  pub Float : Type 0
  pub zero_float : Float
  pub times : Float → Float → Float
  pub minus : Float → Float → Float
  pub less : Float → Float → Bool
  pub normalize : String → String

module _ (nu : Numbers) where
  -- a product that came without an id has none
  pub record Product : Type 0 where
    pub id : Option String
    pub name : String
    pub price : nu.Float
    pub source : String

  pub record Opportunity : Type 0 where
    pub product : String
    pub buy : String
    pub sell : String
    pub buy_price : nu.Float
    pub sell_price : nu.Float
    pub profit : nu.Float
    pub commission_rate : nu.Float

  pub record ProductPayoutRecord : Type 0 where
    pub network : String
    pub product_id : String
    pub payout_rate : nu.Float
    pub currency : String
    pub freshness_ts : String

  pub record Performance : Type 0 where
    pub clicks : ℕ
    pub conversions : ℕ
    pub revenue : nu.Float

  -- the rest of `InMemoryStore`
  pub record MarketStore : Type 0 where
    pub products : List Product
    pub arbitrage_events : List Opportunity
    pub product_payouts : Dict (String × String) ProductPayoutRecord
    pub performance : Dict (String × String) Performance

  pub record ReportRow : Type 0 where
    pub tenant_id : String
    pub product_id : String
    pub video_id : String
    pub publish_status : String
    pub publish_external_id : Option String
    pub clicks : ℕ
    pub conversions : ℕ
    pub revenue : nu.Float
    pub commission_rate : nu.Float
    pub commission_freshness_ts : Option String

-- `str(sell.get("id", ""))`
abbrev pub id_text : Option String → String
id_text none = ""
id_text (some i) = i

-- `buy.get("id") == sell.get("id") and buy.get("id") is not None`
abbrev pub same_id : Option String → Option String → Bool
same_id (some i) (some j) = str_eq i j
same_id _ _ = false

module _ {nu : Numbers} where
  -- `grouped`, with the groups so far
  unfoldable pub group_products :
      List (Product nu) → Dict String (List (Product nu)) → Dict String (List (Product nu))
  group_products [] grouped = grouped
  group_products (p ∷ ps) grouped =
      let key = nu.normalize p.name in
      group_products ps (insert key (get_or [] key grouped ++ p ∷ []) grouped)

  abbrev pub opportunity_of : String → Product nu → Product nu → nu.Float → Opportunity nu
  opportunity_of name buy sell commission = record {
    product = name;
    buy = buy.source;
    sell = sell.source;
    buy_price = buy.price;
    sell_price = sell.price;
    profit = nu.minus (nu.times sell.price commission) buy.price;
    commission_rate = commission;
  }

  module _ (payout_lookup : String → String → Option nu.Float) (min_profit : nu.Float) where
    -- the body of the inner loop, behind the lookup of the commission
    unfoldable pub pair_with :
        String → Product nu → Product nu → Option nu.Float → List (Opportunity nu)
    pair_with name buy sell none = []
    pair_with name buy sell (some commission) =
        let found = opportunity_of name buy sell commission in
        if nu.less min_profit found.profit then found ∷ [] else []

    unfoldable pub pair_opportunities : String → Product nu → Product nu → List (Opportunity nu)
    unfolding pair_with
    pair_opportunities name buy sell =
        if str_eq buy.source sell.source || same_id buy.id sell.id
        then []
        else pair_with name buy sell (payout_lookup sell.source (id_text sell.id))

    unfoldable pub sell_loop : String → Product nu → List (Product nu) → List (Opportunity nu)
    unfolding pair_opportunities
    sell_loop name buy [] = []
    sell_loop name buy (sell ∷ sells) = pair_opportunities name buy sell ++ sell_loop name buy sells

    unfoldable pub buy_loop : String → List (Product nu) → List (Product nu) → List (Opportunity nu)
    unfolding sell_loop
    buy_loop name items [] = []
    buy_loop name items (buy ∷ buys) = sell_loop name buy items ++ buy_loop name items buys

    unfoldable pub group_loop : Dict String (List (Product nu)) → List (Opportunity nu)
    unfolding buy_loop
    group_loop [] = []
    group_loop ((name, items) ∷ groups) =
        let rest = group_loop groups in
        if ltb (length items) 2 then rest else buy_loop name items items ++ rest

    unfoldable pub detect : List (Product nu) → List (Opportunity nu)
    unfolding group_loop
    detect products = group_loop (group_products products [])

  -- `get_product_payout`
  unfoldable pub get_product_payout : String → String → MarketStore nu → Option nu.Float
  get_product_payout network product_id s = elim (lookup (network, product_id) s.product_payouts) [
    | none ↦ none
    | some r ↦ some r.payout_rate
  ]

  unfoldable pub upsert_product_payout : ProductPayoutRecord nu → MarketStore nu → MarketStore nu
  upsert_product_payout r s = record s {
    product_payouts = insert (r.network, r.product_id) r s.product_payouts;
  }

  -- `a.profit >= b.profit`: the larger profit comes first, and equal ones keep their order
  abbrev pub richer : Opportunity nu → Opportunity nu → Bool
  richer a b = not (nu.less a.profit b.profit)

  unfoldable pub insert_event : Opportunity nu → MarketStore nu → MarketStore nu
  insert_event event s = record s { arbitrage_events = s.arbitrage_events ++ event ∷ [] }

  -- `for event in selected: insert_event(event)`
  unfoldable pub insert_events : List (Opportunity nu) → MarketStore nu → MarketStore nu
  unfolding insert_event
  insert_events [] s = s
  insert_events (o ∷ os) s = insert_events os (insert_event o s)

  unfoldable pub list_events : ℕ → MarketStore nu → List (Opportunity nu)
  list_events limit s = take limit (sorted richer s.arbitrage_events)

  -- the opportunities that a scan returns: the richest ones
  unfoldable pub selected : nu.Float → ℕ → MarketStore nu → List (Opportunity nu)
  unfolding detect
  selected min_profit max_results s = take max_results (
      sorted richer (
        detect (λ network product_id. get_product_payout network product_id s) min_profit
          s.products))

  -- `POST /arbitrage/scan`
  unfoldable pub scan_arbitrage :
      Bool → nu.Float → ℕ → MarketStore nu → List (Opportunity nu) × MarketStore nu
  unfolding selected insert_events
  scan_arbitrage persist min_profit max_results s =
      let results = selected min_profit max_results s in
      (results, if persist then insert_events results s else s)

  -- `payload.performance`, or the zeros of an empty one
  abbrev pub performance_or_zero : Option (Performance nu) → Performance nu
  performance_or_zero none = record { clicks = 0; conversions = 0; revenue = nu.zero_float }
  performance_or_zero (some p) = p

  unfoldable pub report_row : String → PublishResult → MarketStore nu → ReportRow nu
  report_row tenant r s =
      let payout = lookup (r.network, r.product_id) s.product_payouts in
      let performance = performance_or_zero (lookup (tenant, r.product_id) s.performance) in
      record {
        tenant_id = tenant;
        product_id = r.product_id;
        video_id = r.video_id;
        publish_status = r.status;
        publish_external_id = r.external_id;
        clicks = performance.clicks;
        conversions = performance.conversions;
        revenue = performance.revenue;
        commission_rate = elim payout [ none ↦ nu.zero_float | some p ↦ p.payout_rate ];
        commission_freshness_ts = elim payout [ none ↦ none | some p ↦ some p.freshness_ts ];
      }

  -- `(a.product_id, a.video_id) <= (b.product_id, b.video_id)`
  abbrev pub row_leb : ReportRow nu → ReportRow nu → Bool
  row_leb a b =
      if str_eq a.product_id b.product_id
      then text_leb a.video_id b.video_id
      else text_leb a.product_id b.product_id

  unfoldable pub get_posted_product_reporting :
      String → PublishingStore → MarketStore nu → List (ReportRow nu)
  unfolding report_row
  get_posted_product_reporting tenant queue s = sorted row_leb (
      map (λ r. report_row tenant r s)
        (keep_if (λ (r : PublishResult). str_eq r.tenant_id tenant) queue.publish_results))
