-- ===== src/Arbitrage/Publishing/Laws.antt =====
-- The books of a daily run: where its jobs are afterwards, and how far the counter goes.
use zlttbots.Prelude.{
  ℕ, suc, ◌+◌, ◌≤◌, ◌≡◌, String, str_eq, List, [], ◌∷◌, length, All, Outcome, ok, raised, Error,
  arith, Bool-cases, inl, inr, ap, max, take, length-take, length-drop, length-append, All-take,
  subst, ◌==◌,
}
use zlttbots.Prelude.Int.{ℤ, pos, pos_part, ltb_ℤ, ◌-ℤ◌}
use zlttbots.Arbitrage.Queue.{
  PublishingJob, PublishingStore, queue_of, enqueue_publish_job, dequeue_publish_jobs,
  get_daily_counter, increase_daily_counter, put_dead_letter, record_publish_result,
}
use zlttbots.Arbitrage.Queue.Laws.{length-queue-enqueue, queue-dequeue, counter-increase}
use zlttbots.Arbitrage.Publishing.{
  PublishingPolicy, PublishResponse, Progress, or_default, give_back, note_published, settle_job,
  publish_jobs, capacity_left, run_for_tenant,
}

module _ (tenant day : String) where
  abbrev pub waiting : Progress → ℕ
  waiting p = length (queue_of tenant p.store)

  abbrev pub counter : Progress → ℕ
  counter p = get_daily_counter tenant day p.store

  -- From one state of the loop to a later one, n jobs were settled: each of them was published, given
  -- back to the queue or put with the dead letters, and the books say which.
  abbrev pub Settled : ℕ → Progress → Progress → Type 0
  Settled n p q =
      (q.published + q.dead_lettered + waiting q ≡ p.published + p.dead_lettered + waiting p + n)
      × (counter q + p.published ≡ counter p + q.published)
      × (length q.store.publish_results + p.published
          ≡ length p.store.publish_results + q.published)
      × (length q.store.dead_letters + p.dead_lettered
          ≡ length p.store.dead_letters + q.dead_lettered)
      × (p.published ≤ q.published)
      × (p.dead_lettered ≤ q.dead_lettered)
      × (waiting p ≤ waiting q)

  Settled-trans : (m n : ℕ) (p q r : Progress) → Settled m p q → Settled n q r → Settled (m + n) p r
  Settled-trans m n p q r (a, b, c, d, e, f, g) (h, i, j, k, l, o, u) =
      (omega arith, omega arith, omega arith, omega arith, omega arith, omega arith, omega arith)

  Settled-refl : (p : Progress) → Settled 0 p p
  Settled-refl p =
      (omega arith, omega arith, omega arith, omega arith, omega arith, omega arith, omega arith)

module _ (policy : PublishingPolicy) (tenant day : String) where
  give_back-Settled :
      (job : PublishingJob) (e : Error) (p : Progress)
      → job.tenant_id ≡ tenant
      → Settled tenant day 1 p (give_back policy tenant day job e p)
  unfolding give_back put_dead_letter enqueue_publish_job get_daily_counter
  give_back-Settled job e p own =
      let again : PublishingJob = record job { retry_count = job.retry_count + 1 } in
      let queued = length-queue-enqueue tenant again p.store own in
      elim (Bool-cases (ltb_ℤ (pos job.retry_count) policy.retry_budget)) [
        | inl h ↦ rw h (
          omega arith,
          omega arith,
          omega arith,
          omega arith,
          omega arith,
          omega arith,
          omega arith,
        )
        | inr h ↦
            let grown = length-append p.store.dead_letters (
              record {
                tenant_id = job.tenant_id;
                product_id = job.product_id;
                video_id = job.video_id;
                reason = e;
                retry_count = job.retry_count;
              }
              ∷ []) in
            rw h (
              omega arith,
              omega arith,
              omega arith,
              omega arith,
              omega arith,
              omega arith,
              omega arith,
            )
      ]

  note_published-Settled :
      (job : PublishingJob) (r : PublishResponse) (p : Progress)
      → Settled tenant day 1 p (note_published policy tenant day job r p)
  unfolding note_published record_publish_result increase_daily_counter get_daily_counter
  note_published-Settled job r p =
      let counted = counter-increase tenant day p.store in
      let grown = length-append p.store.publish_results (
        record {
          tenant_id = tenant;
          product_id = job.product_id;
          video_id = job.video_id;
          network = or_default "unknown" r.network;
          status = or_default "submitted" r.status;
          external_id = r.external_id;
        }
        ∷ []) in
      (omega arith, omega arith, omega arith, omega arith, omega arith, omega arith, omega arith)

  settle_job-Settled :
      (job : PublishingJob) (o : Outcome PublishResponse) (p : Progress)
      → job.tenant_id ≡ tenant
      → Settled tenant day 1 p (settle_job policy tenant day job o p)
  unfolding settle_job
  settle_job-Settled job (raised e) p own = give_back-Settled job e p own
  settle_job-Settled job (ok r) p own =
      elim (Bool-cases (str_eq (or_default "submitted" r.status) "submitted")) [
        | inl h ↦ rw h (note_published-Settled job r p)
        | inr h ↦ rw h (give_back-Settled job _ p own)
      ]

capacity_bound : (target : ℤ) (c : ℕ) → c + pos_part (target -ℤ pos c) ≤ max c (pos_part target)
unfolding ◌-ℤ◌
capacity_bound target c = ground arith

-- the jobs in the queue of the tenant are its own
abbrev pub Owned : String → PublishingStore → Type 0
Owned tenant s = All (λ j. j.tenant_id ≡ tenant) (queue_of tenant s)

module _ {W : Type 0} (policy : PublishingPolicy) (tenant day : String)
    (publish : PublishingJob → W → Outcome PublishResponse × W) where
  publish_jobs-Settled :
      (jobs : List PublishingJob) (p : Progress) (w : W)
      → All (λ j. j.tenant_id ≡ tenant) jobs
      → Settled tenant day (length jobs) p (publish_jobs policy tenant day publish jobs p w).0
  unfolding publish_jobs
  publish_jobs-Settled [] p w own = Settled-refl tenant day p
  publish_jobs-Settled (job ∷ jobs) p w (mine, own) =
      let (result, w') = publish job w in
      let p' = settle_job policy tenant day job result p in
      let count : 1 + length jobs ≡ suc (length jobs) = omega arith in
      subst (λ k. Settled tenant day k p (publish_jobs policy tenant day publish jobs p' w').0)
        count
        (Settled-trans tenant day 1 (length jobs) p p' _
          (settle_job-Settled policy tenant day job result p mine)
          (publish_jobs-Settled jobs p' w' own))

  -- what the loop of a daily run leaves of a queue
  after_loop : PublishingStore → W → Progress
  unfolding publish_jobs
  after_loop s w =
      let (jobs, s') = dequeue_publish_jobs tenant (capacity_left policy tenant day publish s) s in
      (publish_jobs policy tenant day publish jobs
        (record { store = s'; published = 0; dead_lettered = 0 }) w).0

  -- the books after a number of jobs published and dead-lettered
  abbrev pub Balanced : ℕ → ℕ → PublishingStore → PublishingStore → Type 0
  Balanced published dead s s' =
      (published + dead + length (queue_of tenant s') ≡ length (queue_of tenant s))
      × (get_daily_counter tenant day s' ≡ get_daily_counter tenant day s + published)
      × (length s'.publish_results ≡ length s.publish_results + published)
      × (length s'.dead_letters ≡ length s.dead_letters + dead)
      × (get_daily_counter tenant day s'
          ≤ max (get_daily_counter tenant day s) (pos_part policy.daily_target))

  loop-Balanced :
      (s : PublishingStore) (w : W)
      → Owned tenant s
      → let p = after_loop s w in Balanced p.published p.dead_lettered s p.store
  unfolding after_loop dequeue_publish_jobs get_daily_counter
  loop-Balanced s w own =
      let room = capacity_bound policy.daily_target (get_daily_counter tenant day s) in
      let n = capacity_left policy tenant day publish s in
      let queue = queue_of tenant s in
      let s' = (dequeue_publish_jobs tenant n s).1 in
      let jobs = take n queue in
      let taken = length-take n queue in
      let dropped = length-drop n queue in
      let left = ap length (queue-dequeue tenant n s) in
      let (a, b, c, d, e, f, g) =
        publish_jobs-Settled jobs (record { store = s'; published = 0; dead_lettered = 0 }) w
          (All-take _ n queue own) in
      (omega arith, omega arith, omega arith, omega arith, omega arith)

  -- The books of a daily run of a tenant whose queue holds its own jobs are balanced.
  pub run_balances :
      (s : PublishingStore) (w : W)
      → Owned tenant s
      → let (sum, s', w') = run_for_tenant policy tenant day publish s w in
        Balanced sum.published sum.dead_lettered s s'
  unfolding run_for_tenant after_loop
  run_balances s w own = elim (Bool-cases (capacity_left policy tenant day publish s == 0)) [
    | inl h ↦ rw h (omega arith, omega arith, omega arith, omega arith, omega arith)
    | inr h ↦ rw h (loop-Balanced s w own)
  ]
