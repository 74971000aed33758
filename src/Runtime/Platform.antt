-- ===== src/Runtime/Platform.antt =====
-- enterprise_maturity/v3_runtime/orchestrator.py: the parts that keep a state, put together. The queue
-- is the one of the crawler cluster, and the registry is the one of the gateway.
pub mod Laws
use zlttbots.Prelude.{String, true, List, [], ◌∷◌, Outcome, ok}
use zlttbots.Prelude.Int.{ℤ, pos}
use zlttbots.Prelude.Value.{Payload}
use zlttbots.Runtime.Queue.{QueueMessage, publish}
use zlttbots.Runtime.Discovery.{ServiceInstance, register}
use zlttbots.Runtime.Gateway.{Route, ApiGateway, add_route}
use zlttbots.Runtime.Autoscaling.{WorkerPool}
use zlttbots.Runtime.Crawler.{CrawlerClusterManager}
use zlttbots.Runtime.Gpu.{GpuNode, GpuScheduler, RenderJob, schedule}

pub record EnterpriseRuntime : Type 0 where
  pub gateway : ApiGateway
  pub crawler_cluster : CrawlerClusterManager
  pub gpu_scheduler : GpuScheduler

abbrev pub gpu_node : String → ℤ → GpuNode
gpu_node name total = record { name = name; total_memory_gb = total; used_memory_gb = pos 0 }

abbrev pub crawler_pool : WorkerPool
crawler_pool = record {
  name = "crawler-worker";
  min_workers = pos 3;
  max_workers = pos 100;
  target_backlog_per_worker = pos 8;
  current_workers = pos 3;
}

-- `EnterpriseRuntime()`
abbrev pub new_runtime : EnterpriseRuntime
new_runtime = record {
  gateway = record { discovery = []; routes = []; round_robin_idx = [] };
  crawler_cluster = record { queue = []; pool = crawler_pool };
  gpu_scheduler =
      gpu_node "gpu-a10-1" (pos 24)
      ∷ gpu_node "gpu-a10-2" (pos 24)
      ∷ gpu_node "gpu-l4-1" (pos 48)
      ∷ [];
}

abbrev pub market_crawler : ServiceInstance
market_crawler = record {
  service = "market-crawler";
  host = "market-crawler";
  port = 9400;
  version = "v1";
  healthy = true;
}

abbrev pub crawler_canary : ServiceInstance
crawler_canary = record market_crawler { host = "market-crawler-canary"; port = 9401 }

abbrev pub viral_predictor : ServiceInstance
viral_predictor = record {
  service = "viral-predictor";
  host = "viral-predictor";
  port = 9100;
  version = "v1";
  healthy = true;
}

unfoldable pub bootstrap : EnterpriseRuntime → EnterpriseRuntime
bootstrap r =
    let discovery =
      register viral_predictor
        (register crawler_canary (register market_crawler r.gateway.discovery)) in
    record r {
      gateway =
          add_route (record { path = "/predict"; service = "viral-predictor" })
            (add_route (record { path = "/crawl"; service = "market-crawler" })
              (record r.gateway { discovery = discovery }));
    }

unfoldable pub enqueue_domain_event : String → Payload → EnterpriseRuntime → EnterpriseRuntime
enqueue_domain_event topic payload r = record r {
  crawler_cluster = record r.crawler_cluster {
    queue =
        publish (record { topic = topic; payload = payload; headers = [] }) r.crawler_cluster.queue;
  };
}

unfoldable pub schedule_render :
    String → ℤ → ℤ → EnterpriseRuntime → Outcome String × EnterpriseRuntime
schedule_render job_id gpu_memory_gb duration_s r =
    let job : RenderJob = record {
      job_id = job_id;
      gpu_memory_gb = gpu_memory_gb;
      duration_s = duration_s;
    } in
    let (result, nodes) = schedule job r.gpu_scheduler in
    (result, record r { gpu_scheduler = nodes })
