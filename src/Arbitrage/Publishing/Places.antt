-- ===== src/Arbitrage/Publishing/Places.antt =====
-- Where the jobs of a daily run are afterwards.
use zlttbots.Prelude.{
  ℕ, zero, suc, ◌+◌, ◌≡◌, refl, ◌∙◌, ap, Bool, ◌&&◌, String, str_eq, List, [], ◌∷◌, ◌++◌, All,
  Outcome, ok, raised, Error, arith, Bool-cases, inl, inr, take, drop, All-take, if◌then◌else◌,
  ◌==◌,
}
use zlttbots.Prelude.Int.{pos, ltb_ℤ}
use zlttbots.Arbitrage.Queue.{
  PublishingJob, PublishResult, DeadLetter, PublishingStore, queue_of, enqueue_publish_job,
  dequeue_publish_jobs, increase_daily_counter, put_dead_letter, record_publish_result,
}
use zlttbots.Arbitrage.Queue.Laws.{queue-enqueue, queue-dequeue}
use zlttbots.Arbitrage.Publishing.{
  PublishingPolicy, PublishResponse, Progress, or_default, give_back, note_published, settle_job,
  publish_jobs, capacity_left, run_for_tenant,
}
use zlttbots.Arbitrage.Publishing.Laws.{Owned, Balanced, run_balances}

-- how many elements pass a test
unfoldable pub count_of : {A : Type 0} → (A → Bool) → List A → ℕ
count_of p [] = 0
count_of p (x ∷ xs) = let rest = count_of p xs in if p x then suc rest else rest

count-append :
    {A : Type 0} (p : A → Bool) (xs ys : List A)
    → count_of p (xs ++ ys) ≡ count_of p xs + count_of p ys
unfolding count_of
count-append p [] ys = omega arith
count-append p (x ∷ xs) ys = ground (arith, count-append p xs ys)

count-take-drop :
    {A : Type 0} (p : A → Bool) (n : ℕ) (xs : List A)
    → count_of p (drop n xs) + count_of p (take n xs) ≡ count_of p xs
unfolding count_of
count-take-drop p zero xs = omega arith
count-take-drop p (suc n) [] = refl
count-take-drop p (suc n) (x ∷ xs) = ground (arith, count-take-drop p n xs)

module _ (tenant product video : String) where
  abbrev pub job_is : PublishingJob → Bool
  job_is j = str_eq j.product_id product && str_eq j.video_id video

  abbrev pub result_is : PublishResult → Bool
  result_is r = str_eq r.product_id product && str_eq r.video_id video

  abbrev pub letter_is : DeadLetter → Bool
  letter_is l = str_eq l.product_id product && str_eq l.video_id video

  -- how often a product's video waits, was published or is with the dead letters
  abbrev pub places : PublishingStore → ℕ
  places s =
      count_of job_is (queue_of tenant s)
      + count_of result_is s.publish_results
      + count_of letter_is s.dead_letters

  module _ (policy : PublishingPolicy) (day : String) where
    give_back-places :
        (job : PublishingJob) (e : Error) (p : Progress)
        → job.tenant_id ≡ tenant
        → places (give_back policy tenant day job e p).store
          ≡ places p.store + count_of job_is (job ∷ [])
    unfolding give_back put_dead_letter enqueue_publish_job count_of
    give_back-places job e p own =
        let again : PublishingJob = record job { retry_count = job.retry_count + 1 } in
        let queued =
          ap (count_of job_is) (queue-enqueue tenant again p.store own)
          ∙ count-append job_is (queue_of tenant p.store) (again ∷ []) in
        let buried = count-append letter_is p.store.dead_letters (
          record {
            tenant_id = job.tenant_id;
            product_id = job.product_id;
            video_id = job.video_id;
            reason = e;
            retry_count = job.retry_count;
          }
          ∷ []) in
        elim (Bool-cases (ltb_ℤ (pos job.retry_count) policy.retry_budget)) [
          | inl h ↦ rw h (omega arith)
          | inr h ↦ rw h (omega arith)
        ]

    note_published-places :
        (job : PublishingJob) (r : PublishResponse) (p : Progress)
        → places (note_published policy tenant day job r p).store
          ≡ places p.store + count_of job_is (job ∷ [])
    unfolding note_published record_publish_result increase_daily_counter count_of
    note_published-places job r p =
        let grown = count-append result_is p.store.publish_results (
          record {
            tenant_id = tenant;
            product_id = job.product_id;
            video_id = job.video_id;
            network = or_default "unknown" r.network;
            status = or_default "submitted" r.status;
            external_id = r.external_id;
          }
          ∷ []) in
        omega arith

    settle_job-places :
        (job : PublishingJob) (o : Outcome PublishResponse) (p : Progress)
        → job.tenant_id ≡ tenant
        → places (settle_job policy tenant day job o p).store
          ≡ places p.store + count_of job_is (job ∷ [])
    unfolding settle_job
    settle_job-places job (raised e) p own = give_back-places job e p own
    settle_job-places job (ok r) p own =
        elim (Bool-cases (str_eq (or_default "submitted" r.status) "submitted")) [
          | inl h ↦ rw h (note_published-places job r p)
          | inr h ↦ rw h (give_back-places job _ p own)
        ]

    module _ {W : Type 0} (publish : PublishingJob → W → Outcome PublishResponse × W) where
      publish_jobs-places :
          (jobs : List PublishingJob) (p : Progress) (w : W)
          → All (λ j. j.tenant_id ≡ tenant) jobs
          → places (publish_jobs policy tenant day publish jobs p w).0.store
            ≡ places p.store + count_of job_is jobs
      unfolding publish_jobs count_of
      publish_jobs-places [] p w own = omega arith
      publish_jobs-places (job ∷ jobs) p w (mine, own) =
          let (result, w') = publish job w in
          let first = settle_job-places job result p mine in
          let rest = publish_jobs-places jobs (settle_job policy tenant day job result p) w' own in
          let split = count-append job_is (job ∷ []) jobs in omega arith

      run-places :
          (s : PublishingStore) (w : W)
          → Owned tenant s
          → places (run_for_tenant policy tenant day publish s w).1 ≡ places s
      unfolding run_for_tenant dequeue_publish_jobs
      run-places s w own =
          let n = capacity_left policy tenant day publish s in
          elim (Bool-cases (n == 0)) [
            | inl h ↦ rw h refl
            | inr h ↦
                let queue = queue_of tenant s in
                let s' = (dequeue_publish_jobs tenant n s).1 in
                let left = ap (count_of job_is) (queue-dequeue tenant n s) in
                let parts = count-take-drop job_is n queue in
                let loop =
                  publish_jobs-places (take n queue)
                    (record { store = s'; published = 0; dead_lettered = 0 }) w
                    (All-take _ n queue own) in
                rw h (omega arith)
          ]

module _ {W : Type 0} (policy : PublishingPolicy) (tenant day : String)
    (publish : PublishingJob → W → Outcome PublishResponse × W) where
  -- A daily run of a tenant whose queue holds its own jobs loses and doubles none: of each video of
  -- each product there are as many jobs waiting, results and dead letters together as before. The
  -- counter of the day grows by the jobs published, as do the results, and never beyond the daily
  -- target, unless it was there; the dead letters grow by the number that is answered.
  pub run_accounts :
      (s : PublishingStore) (w : W)
      → Owned tenant s
      → let (sum, s', w') = run_for_tenant policy tenant day publish s w in
        ((product video : String) → places tenant product video s' ≡ places tenant product video s)
        × Balanced policy tenant day publish sum.published sum.dead_lettered s s'
  run_accounts s w own = (
    λ product video. run-places tenant product video policy day publish s w own,
    run_balances policy tenant day publish s w own,
  )
