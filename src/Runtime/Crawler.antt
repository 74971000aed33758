-- ===== src/Runtime/Crawler.antt =====
-- enterprise_maturity/v3_runtime/crawler_cluster.py: crawl jobs go through the queue, and the pool of
-- workers follows its depth. The autoscaler keeps no state of its own.
pub mod Laws
use zlttbots.Prelude.{String, List, [], ◌∷◌, Outcome}
use zlttbots.Prelude.Int.{ℤ, pos}
use zlttbots.Prelude.Value.{Payload, Value}
use zlttbots.Runtime.Queue.{CentralQueue, QueueMessage, publish, consume, depth}
use zlttbots.Runtime.Autoscaling
use zlttbots.Runtime.Autoscaling.{WorkerPool}

pub record CrawlJob : Type 0 where
  pub job_id : String
  pub source : String
  pub keyword : String

pub record CrawlerClusterManager : Type 0 where
  pub queue : CentralQueue Payload
  pub pool : WorkerPool

-- the message of a job
abbrev pub job_message : CrawlJob → QueueMessage Payload
job_message job = record {
  topic = "crawl.jobs";
  payload =
      ("job_id", Value.text job.job_id)
      ∷ ("source", Value.text job.source)
      ∷ ("keyword", Value.text job.keyword)
      ∷ [];
  headers = [];
}

unfoldable pub submit : CrawlJob → CrawlerClusterManager → CrawlerClusterManager
submit job c = record c { queue = publish (job_message job) c.queue }

unfoldable pub reconcile : CrawlerClusterManager → Outcome ℤ × CrawlerClusterManager
reconcile c =
    let (backlog, queue) = depth "crawl.jobs" c.queue in
    let (result, pool) = Autoscaling.reconcile (pos backlog) c.pool in
    (result, record { queue = queue; pool = pool })

unfoldable pub dispatch_batch :
    ℤ → CrawlerClusterManager → List (QueueMessage Payload) × CrawlerClusterManager
dispatch_batch batch_size c =
    let (messages, queue) = consume "crawl.jobs" batch_size c.queue in
    (messages, record c { queue = queue })
