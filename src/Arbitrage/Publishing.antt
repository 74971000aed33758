-- ===== src/Arbitrage/Publishing.antt =====
-- publishing/controller.py, `DailyPublishingController.run_for_tenant`. The function that publishes is
-- a parameter that may raise and may change the world around it.
pub mod Laws
pub mod Places
pub mod Retries
use zlttbots.Prelude.{
  ℕ, ◌+◌, Bool, true, false, String, str_eq, Option, none, some, List, [], ◌∷◌, length, Outcome, ok,
  raised, runtime_error, Error, concat, if◌then◌else◌, ◌==◌,
}
use zlttbots.Prelude.Int.{ℤ, pos, ◌-ℤ◌, pos_part, ltb_ℤ}
use zlttbots.Arbitrage.Queue.{
  PublishingJob, PublishResult, DeadLetter, PublishingStore, enqueue_publish_job,
  dequeue_publish_jobs, get_daily_counter, increase_daily_counter, put_dead_letter,
  record_publish_result,
}

pub record PublishingPolicy : Type 0 where
  pub daily_target : ℤ
  pub retry_budget : ℤ

-- the keys of the dictionary that publishing returns
pub record PublishResponse : Type 0 where
  pub status : Option String
  pub network : Option String
  pub external_id : Option String

-- `response.get(key, default)`
abbrev pub or_default : String → Option String → String
or_default default none = default
or_default default (some s) = s

-- what the loop has done so far
pub record Progress : Type 0 where
  pub store : PublishingStore
  pub published : ℕ
  pub dead_lettered : ℕ

pub record Summary : Type 0 where
  pub processed : ℕ
  pub published : ℕ
  pub dead_lettered : ℕ
  pub remaining_capacity : ℕ

module _ (policy : PublishingPolicy) (tenant day : String) where
  -- the branch for an exception
  unfoldable pub give_back : PublishingJob → Error → Progress → Progress
  give_back job e p =
      if ltb_ℤ (pos job.retry_count) policy.retry_budget
      then record p {
        store = enqueue_publish_job (record job { retry_count = job.retry_count + 1 }) p.store;
      }
      else record p {
        store =
            put_dead_letter
              (record {
                tenant_id = job.tenant_id;
                product_id = job.product_id;
                video_id = job.video_id;
                reason = e;
                retry_count = job.retry_count;
              })
              p.store;
        dead_lettered = p.dead_lettered + 1;
      }

  -- the branch for a job that was submitted
  unfoldable pub note_published : PublishingJob → PublishResponse → Progress → Progress
  note_published job r p = record p {
    store =
        record_publish_result
          (record {
            tenant_id = tenant;
            product_id = job.product_id;
            video_id = job.video_id;
            network = or_default "unknown" r.network;
            status = or_default "submitted" r.status;
            external_id = r.external_id;
          })
          (increase_daily_counter tenant day p.store);
    published = p.published + 1;
  }

  -- a round of the loop, behind the call that publishes
  unfoldable pub settle_job : PublishingJob → Outcome PublishResponse → Progress → Progress
  unfolding give_back note_published
  settle_job job (raised e) p = give_back job e p
  settle_job job (ok r) p =
      let status = or_default "submitted" r.status in
      if str_eq status "submitted"
      then note_published job r p
      else give_back job (runtime_error (concat ("publish status=" ∷ status ∷ []))) p

module _ {W : Type 0} (policy : PublishingPolicy) (tenant day : String)
    (publish : PublishingJob → W → Outcome PublishResponse × W) where
  unfoldable pub publish_jobs : List PublishingJob → Progress → W → Progress × W
  publish_jobs [] p w = (p, w)
  publish_jobs (job ∷ jobs) p w =
      let (result, w') = publish job w in
      publish_jobs jobs (settle_job policy tenant day job result p) w'

  -- `max(0, self.policy.daily_target - counter)`
  abbrev pub capacity_left : PublishingStore → ℕ
  capacity_left s = pos_part (policy.daily_target -ℤ pos (get_daily_counter tenant day s))

  unfoldable pub run_for_tenant : PublishingStore → W → Summary × PublishingStore × W
  unfolding publish_jobs
  run_for_tenant s w =
      let (jobs, s') = dequeue_publish_jobs tenant (capacity_left s) s in
      let (p, w') = publish_jobs jobs (record { store = s'; published = 0; dead_lettered = 0 }) w in
      if capacity_left s == 0
      then (
        record { processed = 0; published = 0; dead_lettered = 0; remaining_capacity = 0 },
        s,
        w,
      )
      else (
        record {
          processed = length jobs;
          published = p.published;
          dead_lettered = p.dead_lettered;
          remaining_capacity = capacity_left p.store;
        },
        p.store,
        w',
      )
