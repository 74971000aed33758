-- ===== src/Runtime/Tests/Messaging.antt =====
-- The queue, the registry, the gateway and the crawler at concrete inputs.
use zlttbots.Prelude.{ℕ, ◌≡◌, refl, String, List, [], ◌∷◌, true, arith, ok, concat, string_eq, show}
use zlttbots.Prelude.Int.{pos, negsuc}
use zlttbots.Prelude.Dict.{lookup, insert, get_or}
use zlttbots.Runtime.Queue.{QueueMessage, CentralQueue, consume, drain}
use zlttbots.Runtime.Queue.Laws.{publish_all, consume-publish_all}
use zlttbots.Runtime.Discovery.{
  ServiceInstance, ServiceDiscovery, endpoint, register, deregister, resolve, without_endpoint,
}
use zlttbots.Runtime.Discovery.Laws.{IsValid, register-IsValid}
use zlttbots.Runtime.Gateway.{Route, ApiGateway, route}
use zlttbots.Runtime.Gateway.Laws.{after_calls, round_robin}
use zlttbots.Runtime.Autoscaling.Laws.{pool_of}
use zlttbots.Runtime.Crawler.{CrawlJob, CrawlerClusterManager}

abbrev message : String → ℕ → QueueMessage ℕ
message topic n = record { topic = topic; payload = n; headers = [] }

abbrev mail : List (QueueMessage ℕ)
mail = message "a" 1 ∷ message "b" 2 ∷ message "a" 3 ∷ []

abbrev mailbox : CentralQueue ℕ
mailbox = ("a", message "a" 1 ∷ message "a" 3 ∷ []) ∷ ("b", message "b" 2 ∷ []) ∷ []

-- A negative batch hands out nothing.
consume_negative : (consume "a" (negsuc 4) mailbox).0 ≡ []
unfolding consume drain lookup get_or
consume_negative = refl

consume-publish_all_example :
    (consume "a" (pos 5) (publish_all mail [])).0 ≡ message "a" 1 ∷ message "a" 3 ∷ []
consume-publish_all_example = consume-publish_all mail "a" 5 (omega arith)

abbrev crawler : String → ℕ → ServiceInstance
crawler host port = record {
  service = "market-crawler";
  host = host;
  port = port;
  version = "v1";
  healthy = true;
}

abbrev registry : ServiceDiscovery
registry = ("market-crawler", crawler "one" 9400 ∷ crawler "two" 9401 ∷ []) ∷ []

empty-IsValid : IsValid []
unfolding get_or lookup
empty-IsValid = record { distinct = λ s. tt; filed = λ s. tt }

registry-IsValid : IsValid registry
unfolding register without_endpoint endpoint get_or lookup insert show
registry-IsValid =
    register-IsValid (crawler "two" 9401) _ (register-IsValid (crawler "one" 9400) [] empty-IsValid)

resolve-deregister_runs :
    (resolve "market-crawler" (deregister "market-crawler" "http://one:9400" registry)).0
    ≡ crawler "two" 9401 ∷ []
unfolding resolve deregister without_endpoint endpoint get_or lookup insert show
resolve-deregister_runs = refl

abbrev crawl : Route
crawl = record { path = "/crawl"; service = "market-crawler" }

abbrev gateway : ApiGateway
gateway = record {
  discovery = register (crawler "one" 9400) [];
  routes = ("/crawl", crawl) ∷ [];
  round_robin_idx = [];
}

abbrev busy_gateway : ApiGateway
busy_gateway = record gateway { discovery = registry }

round_robin_example :
    ((route "/crawl" (after_calls 5 "/crawl" busy_gateway)).0
      ≡ ok (concat (endpoint (crawler "two" 9401) ∷ "/crawl" ∷ [])))
    × ((crawler "two" 9401).healthy ≡ true)
    × ((crawler "two" 9401).service ≡ crawl.service)
unfolding lookup get_or resolve
round_robin_example =
    round_robin "/crawl" crawl 5 (crawler "two" 9401) busy_gateway registry-IsValid refl refl

abbrev cluster : CrawlerClusterManager
cluster = record { queue = []; pool = pool_of "crawler-worker" 3 100 8 (pos 3) }

abbrev jobs : List CrawlJob
jobs = record { job_id = "1"; source = "shopee"; keyword = "lamp" } ∷ []
