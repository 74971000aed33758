-- ===== src/Arbitrage/Queue.antt =====
-- core/database.py, the part of `InMemoryStore` that publishing uses. Its lock makes each function one
-- step. Reading a default dictionary makes an entry, which reads the same as none.
pub mod Laws
use zlttbots.Prelude.{
  ℕ, ◌+◌, String, Option, none, some, List, [], ◌∷◌, ◌++◌, take, drop, string_eq, pair_eq, Error,
}
use zlttbots.Prelude.Dict.{Dict, insert, get_or}

pub record PublishingJob : Type 0 where
  pub tenant_id : String
  pub product_id : String
  pub video_id : String
  pub destination_url : String
  pub retry_count : ℕ

pub record PublishResult : Type 0 where
  pub tenant_id : String
  pub product_id : String
  pub video_id : String
  pub network : String
  pub status : String
  pub external_id : Option String

-- the reason is the text of the exception: it is kept as the exception
pub record DeadLetter : Type 0 where
  pub tenant_id : String
  pub product_id : String
  pub video_id : String
  pub reason : Error
  pub retry_count : ℕ

pub record PublishingStore : Type 0 where
  pub publish_jobs : Dict String (List PublishingJob)
  pub publish_counters : Dict (String × String) ℕ
  pub dead_letters : List DeadLetter
  pub publish_results : List PublishResult

abbrev pub empty_store : PublishingStore
empty_store = record {
  publish_jobs = [];
  publish_counters = [];
  dead_letters = [];
  publish_results = [];
}

-- `MEMORY_STORE.publish_jobs[tenant_id]`
abbrev pub queue_of : String → PublishingStore → List PublishingJob
queue_of tenant s = get_or [] tenant s.publish_jobs

unfoldable pub enqueue_publish_job : PublishingJob → PublishingStore → PublishingStore
enqueue_publish_job job s = record s {
  publish_jobs = insert job.tenant_id (queue_of job.tenant_id s ++ job ∷ []) s.publish_jobs;
}

-- for a number of items that is not negative
unfoldable pub dequeue_publish_jobs :
    String → ℕ → PublishingStore → List PublishingJob × PublishingStore
dequeue_publish_jobs tenant max_items s = (
  take max_items (queue_of tenant s),
  record s { publish_jobs = insert tenant (drop max_items (queue_of tenant s)) s.publish_jobs },
)

unfoldable pub get_daily_counter : String → String → PublishingStore → ℕ
get_daily_counter tenant day s = get_or 0 (tenant, day) s.publish_counters

unfoldable pub increase_daily_counter : String → String → PublishingStore → PublishingStore
unfolding get_daily_counter
increase_daily_counter tenant day s = record s {
  publish_counters = insert (tenant, day) (get_daily_counter tenant day s + 1) s.publish_counters;
}

unfoldable pub put_dead_letter : DeadLetter → PublishingStore → PublishingStore
put_dead_letter entry s = record s { dead_letters = s.dead_letters ++ entry ∷ [] }

unfoldable pub record_publish_result : PublishResult → PublishingStore → PublishingStore
record_publish_result result s = record s { publish_results = s.publish_results ++ result ∷ [] }
