-- ===== src/Runtime/Crawler/Laws.antt =====
-- The crawler coordinator as a client of the queue and of the autoscaler, by their laws.
use zlttbots.Prelude.{
  ℕ, ◌+◌, ◌-◌, ◌*◌, ◌≤◌, ◌<◌, ◌≡◌, refl, ap, ◌∙◌, ◌⊎◌, String, List, [], ◌∷◌, ◌++◌, map, length,
  string_eq, ok, length-append, length-map,
}
use mathlib.Core.List.{append_assoc, append-nil}
use zlttbots.Prelude.Int.{ℤ, pos}
use zlttbots.Prelude.Value.{Payload}
use zlttbots.Prelude.Dict.{get_or-insert_self}
use zlttbots.Runtime.Queue.{QueueMessage, pending, depth}
use zlttbots.Runtime.Queue.Laws.{pending-publish}
use zlttbots.Runtime.Autoscaling.Laws.{pool_of, reconcile_optimal}
use zlttbots.Runtime.Crawler.{CrawlJob, CrawlerClusterManager, job_message, submit, reconcile}

pub submit_all : List CrawlJob → CrawlerClusterManager → CrawlerClusterManager
submit_all [] c = c
submit_all (j ∷ js) c = submit_all js (submit j c)

abbrev pub crawl_jobs : CrawlerClusterManager → List (QueueMessage Payload)
crawl_jobs c = pending c.queue "crawl.jobs"

crawl_jobs-submit :
    (j : CrawlJob) (c : CrawlerClusterManager)
    → crawl_jobs (submit j c) ≡ crawl_jobs c ++ job_message j ∷ []
unfolding submit
crawl_jobs-submit j c = pending-publish (job_message j) c.queue "crawl.jobs"

pub crawl_jobs-submit_all :
    (js : List CrawlJob) (c : CrawlerClusterManager)
    → crawl_jobs (submit_all js c) ≡ crawl_jobs c ++ map job_message js
unfolding submit_all
crawl_jobs-submit_all [] c = rw append-nil
crawl_jobs-submit_all (j ∷ js) c =
    rw (crawl_jobs-submit_all js (submit j c), crawl_jobs-submit j c)
      (append_assoc (crawl_jobs c) (job_message j ∷ []) (map job_message js))

pool-submit_all : (js : List CrawlJob) (c : CrawlerClusterManager) → (submit_all js c).pool ≡ c.pool
unfolding submit_all submit
pool-submit_all [] c = refl
pool-submit_all (j ∷ js) c = pool-submit_all js (submit j c)

-- After any jobs have been submitted, reconciling a pool of numbers that are not negative gives the
-- fewest workers within its limits that carry the jobs that wait, the new ones among them; the jobs
-- themselves stay.
pub reconcile-submit_all :
    (js : List CrawlJob) (c : CrawlerClusterManager) (name : String) (lo hi target : ℕ) (size : ℤ)
    → c.pool ≡ pool_of name lo hi target size
    → 0 < target
    → lo ≤ hi
    → let waiting = length (crawl_jobs c) + length js in
      (n : ℕ) × ((reconcile (submit_all js c)).0 ≡ ok (pos n))
      × ((waiting ≤ n * target) ⊎ (n ≡ hi))
      × ((n ≡ lo) ⊎ ((n - 1) * target < waiting))
      × (crawl_jobs (reconcile (submit_all js c)).1 ≡ crawl_jobs c ++ map job_message js)
unfolding reconcile depth
reconcile-submit_all js c name lo hi target size p t h =
    let waiting = length (crawl_jobs c) + length js in
    let counted : length (crawl_jobs (submit_all js c)) ≡ waiting =
      ap length (crawl_jobs-submit_all js c)
      ∙ length-append (crawl_jobs c) (map job_message js)
      ∙ ap (λ (k : ℕ). length (crawl_jobs c) + k) (length-map js job_message) in
    let sized : (submit_all js c).pool ≡ pool_of name lo hi target size =
      pool-submit_all js c ∙ p in
    let (n, result, carries, fewest) = reconcile_optimal name lo hi target waiting size t h in
    (
      n,
      rw (counted, sized) result,
      carries,
      fewest,
      get_or-insert_self [] "crawl.jobs" _ (submit_all js c).queue ∙ crawl_jobs-submit_all js c,
    )
