-- ===== src/Arbitrage/Tests.antt =====
-- The theorems on the arbitrage engine at concrete inputs: numbers stand for its floats.
use zlttbots.Prelude.{
  ℕ, ◌*◌, ◌-◌, ◌≤◌, ◌≡◌, refl, ◌⊎◌, true, String, none, some, [], ◌∷◌, length, All, arith, ltb,
  Outcome, raised, runtime_error, ok, str_eq, if◌then◌else◌,
}
use zlttbots.Prelude.Int.{pos, ◌-ℤ◌}
use zlttbots.Prelude.Dict.{get_or, lookup, insert}
use zlttbots.Prelude.Sorting.{sorted, IsSorted}
use zlttbots.Arbitrage.Queue.{PublishingJob, PublishingStore, get_daily_counter, queue_of}
use zlttbots.Arbitrage.Publishing.{PublishingPolicy, PublishResponse, run_for_tenant}
use zlttbots.Arbitrage.Publishing.Laws.{Balanced}
use zlttbots.Arbitrage.Publishing.Places.{places, run_accounts}
use zlttbots.Arbitrage.Publishing.Retries.{runs, runs_bury, letter}
use zlttbots.Arbitrage.Market.{
  Numbers, Product, Opportunity, MarketStore, richer, scan_arbitrage, get_product_payout,
  group_products,
}
use zlttbots.Arbitrage.Api.{AffiliateNetwork, lazada, ConnectorSnapshot, sync_affiliate}
use zlttbots.Arbitrage.Api.Laws.{sync_affiliate_lem, rate_after, last_rate}
use zlttbots.Arbitrage.Market.Laws.{IsFound, scan_arbitrage_lem}

abbrev job_of : String → PublishingJob
job_of product = record {
  tenant_id = "acme";
  product_id = product;
  video_id = "v1";
  destination_url = "https://shop";
  retry_count = 0;
}

abbrev policy_2_1 : PublishingPolicy
policy_2_1 = record { daily_target = pos 2; retry_budget = pos 1 }

-- publishing fails for one product
abbrev publish_some : PublishingJob → ℕ → Outcome PublishResponse × ℕ
publish_some job n =
    if str_eq job.product_id "bad"
    then (raised (runtime_error "down"), n)
    else (ok (record { status = some "submitted"; network = none; external_id = none }), n)

abbrev two_jobs : PublishingStore
two_jobs = record {
  publish_jobs = ("acme", job_of "good" ∷ job_of "bad" ∷ []) ∷ [];
  publish_counters = [];
  dead_letters = [];
  publish_results = [];
}

run_accounts_example :
    let (sum, s', w') = run_for_tenant policy_2_1 "acme" "day" publish_some two_jobs 0 in
    ((product video : String)
      → places "acme" product video s' ≡ places "acme" product video two_jobs)
    × Balanced policy_2_1 "acme" "day" publish_some sum.published sum.dead_lettered two_jobs s'
unfolding get_or lookup
run_accounts_example =
    run_accounts policy_2_1 "acme" "day" publish_some two_jobs 0 (refl, (refl, tt))

abbrev publish_none : PublishingJob → ℕ → Outcome PublishResponse × ℕ
publish_none job n =
    (ok (record { status = some "failed"; network = some "tiktok"; external_id = none }), n)

abbrev one_job : PublishingStore
one_job = record {
  publish_jobs = ("acme", job_of "bad" ∷ []) ∷ [];
  publish_counters = [];
  dead_letters = [];
  publish_results = [];
}

runs_bury_example :
    let s' =
      runs policy_2_1 "acme" "day" publish_none
        (runtime_error "publish status=failed")
        (λ j w. (refl, refl))
        2
        one_job
        0 in
    (queue_of "acme" s' ≡ [])
    × (s'.dead_letters
        ≡ letter (record (job_of "bad") { retry_count = 1 }) (runtime_error "publish status=failed")
          ∷ [])
unfolding get_or lookup ◌-ℤ◌ get_daily_counter
runs_bury_example =
    runs_bury policy_2_1 "acme" "day" publish_none (runtime_error "publish status=failed")
      (λ j w. (refl, refl)) 1 (job_of "bad") one_job 0 refl refl refl (omega arith)

abbrev whole : Numbers
whole = record {
  Float = ℕ;
  zero_float = 0;
  times = λ a b. a * b;
  minus = λ a b. a - b;
  less = ltb;
  normalize = λ s. s;
}

abbrev shop : MarketStore whole
shop = record {
  products =
      record { id = some "1"; name = "lamp"; price = 5; source = "shopee" }
      ∷ record { id = some "2"; name = "lamp"; price = 9; source = "lazada" }
      ∷ [];
  arbitrage_events = [];
  product_payouts =
      (
        ("lazada", "2"),
        record {
          network = "lazada";
          product_id = "2";
          payout_rate = 1;
          currency = "USD";
          freshness_ts = "now";
        },
      )
      ∷ [];
  performance = [];
}

richer_total : (x y : Opportunity whole) → (richer x y ≡ true) ⊎ (richer y x ≡ true)
richer_total x y = ground arith

richer_trans :
    (x y z : Opportunity whole) → richer x y ≡ true → richer y z ≡ true → richer x z ≡ true
richer_trans x y z p q = ground arith

abbrev Cheap : Product whole → Type 0
Cheap p = p.price ≤ 10

scan_arbitrage_lem_example :
    All
      (IsFound {nu = whole}
        (λ network product_id. get_product_payout network product_id shop)
        1
        Cheap)
      (scan_arbitrage true 1 3 shop).0
    × (length (scan_arbitrage true 1 3 shop).0 ≤ 3)
    × IsSorted richer (scan_arbitrage true 1 3 shop).0
    × ((scan_arbitrage true 1 3 shop).1
        ≡ record shop { arbitrage_events = (scan_arbitrage true 1 3 shop).0 })
scan_arbitrage_lem_example =
    scan_arbitrage_lem richer_total richer_trans Cheap true 1 3 shop
      (omega arith, (omega arith, tt))

scan_runs : length (scan_arbitrage true 1 3 shop).0 ≡ 1
unfolding scan_arbitrage sorted group_products insert get_or lookup get_product_payout
scan_runs = refl

abbrev fetch_one : AffiliateNetwork → String → Outcome (ConnectorSnapshot whole)
fetch_one network token = ok (record {
  commissions =
      record {
        network = lazada;
        product_id = "2";
        payout_rate = 3;
        currency = "USD";
        fetched_at = "later";
      }
      ∷ [];
  orders = 0;
})

sync_affiliate_lem_example :
    get_product_payout "lazada" "2" (sync_affiliate {nu = whole} fetch_one lazada "token" shop).1
    ≡ some 3
unfolding rate_after last_rate
sync_affiliate_lem_example =
    sync_affiliate_lem {nu = whole} fetch_one lazada "token" "lazada" "2" shop
