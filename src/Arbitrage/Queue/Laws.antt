-- ===== src/Arbitrage/Queue/Laws.antt =====
-- What each function of the store does to the queue of a tenant and to its counter.
use zlttbots.Prelude.{
  ℕ, ◌+◌, ◌≡◌, ◌∙◌, String, [], ◌∷◌, ◌++◌, length, length-append, ap, drop, string_eq, pair_eq,
}
use zlttbots.Prelude.Dict.{get_or-insert_self}
use zlttbots.Arbitrage.Queue.{
  PublishingJob, PublishingStore, queue_of, enqueue_publish_job, dequeue_publish_jobs,
  get_daily_counter, increase_daily_counter,
}

pub queue-enqueue :
    (tenant : String) (job : PublishingJob) (s : PublishingStore)
    → job.tenant_id ≡ tenant
    → queue_of tenant (enqueue_publish_job job s) ≡ queue_of tenant s ++ job ∷ []
unfolding enqueue_publish_job
queue-enqueue tenant job s e = rw (← e) (get_or-insert_self [] job.tenant_id _ s.publish_jobs)

pub length-queue-enqueue :
    (tenant : String) (job : PublishingJob) (s : PublishingStore)
    → job.tenant_id ≡ tenant
    → length (queue_of tenant (enqueue_publish_job job s)) ≡ length (queue_of tenant s) + 1
length-queue-enqueue tenant job s e =
    ap length (queue-enqueue tenant job s e) ∙ length-append (queue_of tenant s) (job ∷ [])

pub queue-dequeue :
    (tenant : String) (n : ℕ) (s : PublishingStore)
    → queue_of tenant (dequeue_publish_jobs tenant n s).1 ≡ drop n (queue_of tenant s)
unfolding dequeue_publish_jobs
queue-dequeue tenant n s = get_or-insert_self [] tenant _ s.publish_jobs

pub counter-increase :
    (tenant day : String) (s : PublishingStore)
    → get_daily_counter tenant day (increase_daily_counter tenant day s)
      ≡ get_daily_counter tenant day s + 1
unfolding get_daily_counter increase_daily_counter
counter-increase tenant day s = get_or-insert_self 0 (tenant, day) _ s.publish_counters
