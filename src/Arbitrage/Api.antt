-- ===== src/Arbitrage/Api.antt =====
-- api/server.py: the endpoints over the store that change it or read it, behind the checks of the
-- request fields, and a round of workers/worker.py. The client of an affiliate network is a parameter.
pub mod Laws
use zlttbots.Prelude.{
  ℕ, zero, suc, Bool, not, String, str_eq, pair_eq, List, [], ◌∷◌, length, keep_if, Outcome, ok,
  raised, raise_if, http_error, ◌>>◌, ◌>>=◌, truthy, Option, none, some, map,
}
use zlttbots.Prelude.Dict.{insert}
use zlttbots.Arbitrage.Queue.{
  PublishingJob, DeadLetter, PublishingStore, get_daily_counter, enqueue_publish_job,
}
use zlttbots.Arbitrage.Publishing.{PublishingPolicy, PublishResponse, Summary, run_for_tenant}
use zlttbots.Arbitrage.Market.{
  Numbers, MarketStore, ProductPayoutRecord, Performance, ReportRow, upsert_product_payout,
  insert_events, detect, get_product_payout, get_posted_product_reporting,
}

-- the members of `AffiliateNetwork`
pub data AffiliateNetwork : Type 0 where
  tiktok shopee lazada : AffiliateNetwork

abbrev pub network_value : AffiliateNetwork → String
network_value tiktok = "tiktok"
network_value shopee = "shopee"
network_value lazada = "lazada"

-- `ProductCommission`, with its currency in capitals
pub record ProductCommission (nu : Numbers) : Type 0 where
  pub network : AffiliateNetwork
  pub product_id : String
  pub payout_rate : nu.Float
  pub currency : String
  pub fetched_at : String

-- the part of `ConnectorSnapshot` that reaches the store, and the number of its orders
pub record ConnectorSnapshot (nu : Numbers) : Type 0 where
  pub commissions : List (ProductCommission nu)
  pub orders : ℕ

module _ {nu : Numbers} where
  abbrev pub payout_record : ProductCommission nu → ProductPayoutRecord nu
  payout_record c = record {
    network = network_value c.network;
    product_id = c.product_id;
    payout_rate = c.payout_rate;
    currency = c.currency;
    freshness_ts = c.fetched_at;
  }

  -- the loop of `sync_affiliate`
  unfoldable pub upsert_all : List (ProductCommission nu) → MarketStore nu → MarketStore nu
  upsert_all [] s = s
  upsert_all (c ∷ cs) s = upsert_all cs (upsert_product_payout (payout_record c) s)

  -- the part of `sync_affiliate` behind the snapshot: the numbers of commissions and orders
  unfoldable pub store_snapshot :
      Outcome (ConnectorSnapshot nu) → MarketStore nu → Outcome (ℕ × ℕ) × MarketStore nu
  unfolding upsert_all
  store_snapshot (raised e) s = (raised e, s)
  store_snapshot (ok snapshot) s =
      (ok (length snapshot.commissions, snapshot.orders), upsert_all snapshot.commissions s)

  unfoldable pub sync_affiliate :
      (AffiliateNetwork → String → Outcome (ConnectorSnapshot nu))
      → AffiliateNetwork
      → String
      → MarketStore nu
      → Outcome (ℕ × ℕ) × MarketStore nu
  unfolding store_snapshot
  sync_affiliate fetch_network_snapshot network auth_token s =
      store_snapshot (fetch_network_snapshot network auth_token) s

  unfoldable pub ingest_payout : ProductCommission nu → MarketStore nu → MarketStore nu
  ingest_payout c s = upsert_product_payout (payout_record c) s

  unfoldable pub ingest_performance :
      String → String → Performance nu → MarketStore nu → MarketStore nu
  ingest_performance tenant product_id payload s = record s {
    performance = insert (tenant, product_id) payload s.performance;
  }

  -- one round of `worker`
  unfoldable pub worker_round : nu.Float → MarketStore nu → MarketStore nu
  worker_round min_profit s =
      insert_events
        (detect (λ network product_id. get_product_payout network product_id s) min_profit
          s.products)
        s

  unfoldable pub posted_product_reporting :
      String → PublishingStore → MarketStore nu → Outcome (List (ReportRow nu) × List DeadLetter)
  posted_product_reporting tenant queue s =
      raise_if (not (truthy tenant)) (http_error 400 "tenant_id required")
      >> ok (
        get_posted_product_reporting tenant queue s,
        keep_if (λ (d : DeadLetter). str_eq d.tenant_id tenant) queue.dead_letters,
      )

-- `run_daily`: every job gets the answer of the simulation
unfoldable pub run_daily :
    PublishingPolicy
    → String
    → String
    → PublishResponse
    → PublishingStore
    → Summary × PublishingStore
run_daily policy day tenant simulation s =
    let (sum, s', w) =
      run_for_tenant policy tenant day (λ (job : PublishingJob) (w : Unit {0}). (ok simulation, w))
        s tt in
    (sum, s')

unfoldable pub enqueue_job : PublishingJob → PublishingStore → PublishingStore
enqueue_job job s = enqueue_publish_job (record job { retry_count = 0 }) s

unfoldable pub get_counter : String → String → PublishingStore → ℕ
get_counter day tenant s = get_daily_counter tenant day s
