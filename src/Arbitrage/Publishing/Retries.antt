-- ===== src/Arbitrage/Publishing/Retries.antt =====
-- A job that cannot be published does not stay in the queue for ever.
use zlttbots.Prelude.{
  str_eq, runtime_error, concat, ok, false, ℕ, zero, suc, ◌+◌, ◌<◌, ◌≡◌, refl, ◌∙◌, sym, ap, true,
  false, String, List, [], ◌∷◌, ◌++◌, Outcome, raised, Error, arith, ◌==◌, subst, take, drop,
}
use zlttbots.Prelude.Int.{pos, pos_part, ltb_ℤ, ◌-ℤ◌}
use zlttbots.Arbitrage.Queue.{
  PublishingJob, PublishingStore, DeadLetter, queue_of, enqueue_publish_job, dequeue_publish_jobs,
  get_daily_counter, put_dead_letter,
}
use zlttbots.Arbitrage.Queue.Laws.{queue-enqueue, queue-dequeue}
use zlttbots.Arbitrage.Publishing.{
  PublishingPolicy, PublishResponse, Progress, give_back, settle_job, publish_jobs, capacity_left,
  run_for_tenant, or_default,
}

-- the entry of a job among the dead letters
abbrev pub letter : PublishingJob → Error → DeadLetter
letter job e = record {
  tenant_id = job.tenant_id;
  product_id = job.product_id;
  video_id = job.video_id;
  reason = e;
  retry_count = job.retry_count;
}

-- a publication that fails, by an exception or by its status, and the error that it is kept under
abbrev pub FailsWith : Error → Outcome PublishResponse → Type 0
FailsWith e (raised x) = x ≡ e
FailsWith e (ok r) =
    (str_eq (or_default "submitted" r.status) "submitted" ≡ false)
    × (runtime_error (concat ("publish status=" ∷ or_default "submitted" r.status ∷ [])) ≡ e)

settle_failed :
    (policy : PublishingPolicy) (tenant day : String) (e : Error) (job : PublishingJob)
    (o : Outcome PublishResponse) (p : Progress)
    → FailsWith e o
    → settle_job policy tenant day job o p ≡ give_back policy tenant day job e p
unfolding settle_job
settle_failed policy tenant day e job (raised x) p same =
    ap (λ y. give_back policy tenant day job y p) same
settle_failed policy tenant day e job (ok r) p (other, same) =
    rw other (ap (λ y. give_back policy tenant day job y p) same)

take_one : (n : ℕ) (x : PublishingJob) → 0 < n → take n (x ∷ []) ≡ x ∷ []
take_one zero x h = absurd (omega arith)
take_one (suc zero) x h = refl
take_one (suc (suc n)) x h = refl

drop_one : (n : ℕ) (x : PublishingJob) → 0 < n → drop n (x ∷ []) ≡ []
drop_one zero x h = absurd (omega arith)
drop_one (suc zero) x h = refl
drop_one (suc (suc n)) x h = refl

module _ (policy : PublishingPolicy) (tenant day : String) (job : PublishingJob) (e : Error)
    (p : Progress) where
  give_back_again :
      ltb_ℤ (pos job.retry_count) policy.retry_budget ≡ true
      → give_back policy tenant day job e p ≡ record p {
        store = enqueue_publish_job (record job { retry_count = job.retry_count + 1 }) p.store;
      }
  unfolding give_back
  give_back_again h = rw h refl

  give_back_dead :
      ltb_ℤ (pos job.retry_count) policy.retry_budget ≡ false
      → give_back policy tenant day job e p ≡ record p {
        store = put_dead_letter (letter job e) p.store;
        dead_lettered = p.dead_lettered + 1;
      }
  unfolding give_back
  give_back_dead h = rw h refl

module _ {W : Type 0} (policy : PublishingPolicy) (tenant day : String)
    (publish : PublishingJob → W → Outcome PublishResponse × W) (e : Error)
    (fails : (j : PublishingJob) (w : W) → FailsWith e (publish j w).0) where
  -- daily runs one after the other on the same day
  unfoldable pub runs : ℕ → PublishingStore → W → PublishingStore
  runs zero s w = s
  runs (suc n) s w = let (_, s', w') = run_for_tenant policy tenant day publish s w in runs n s' w'

  -- the store behind the branch for the exception
  abbrev settled : PublishingJob → PublishingStore → PublishingStore
  settled job s =
      (give_back policy tenant day job e (record {
        store = (dequeue_publish_jobs tenant (capacity_left policy tenant day publish s) s).1;
        published = 0;
        dead_lettered = 0;
      })).store

  run_one :
      (job : PublishingJob) (s : PublishingStore) (w : W)
      → queue_of tenant s ≡ job ∷ []
      → 0 < capacity_left policy tenant day publish s
      → (run_for_tenant policy tenant day publish s w).1 ≡ settled job s
  unfolding run_for_tenant publish_jobs dequeue_publish_jobs settle_job
  run_one job s w q room =
      let n = capacity_left policy tenant day publish s in
      let open_now : (n == 0) ≡ false = ground arith in
      let one : take n (queue_of tenant s) ≡ job ∷ [] = ap (take n) q ∙ take_one n job room in
      rw open_now (
        rw (one, publish_jobs)
          (ap (λ p. p.store) (settle_failed policy tenant day e job _ _ (fails job w))))

  settled_again :
      (job : PublishingJob) (s : PublishingStore)
      → ltb_ℤ (pos job.retry_count) policy.retry_budget ≡ true
      → settled job s
        ≡ enqueue_publish_job
            (record job { retry_count = job.retry_count + 1 })
            (dequeue_publish_jobs tenant (capacity_left policy tenant day publish s) s).1
  settled_again job s more = ap (λ p. p.store) (give_back_again policy tenant day job e _ more)

  settled_dead :
      (job : PublishingJob) (s : PublishingStore)
      → ltb_ℤ (pos job.retry_count) policy.retry_budget ≡ false
      → settled job s
        ≡ put_dead_letter
            (letter job e)
            (dequeue_publish_jobs tenant (capacity_left policy tenant day publish s) s).1
  settled_dead job s spent = ap (λ p. p.store) (give_back_dead policy tenant day job e _ spent)

  -- the queue behind the job that was taken off
  rest_empty :
      (job : PublishingJob) (s : PublishingStore)
      → queue_of tenant s ≡ job ∷ []
      → 0 < capacity_left policy tenant day publish s
      → queue_of tenant
          (dequeue_publish_jobs tenant (capacity_left policy tenant day publish s) s).1
        ≡ []
  rest_empty job s q room =
      let n = capacity_left policy tenant day publish s in
      queue-dequeue tenant n s ∙ ap (drop n) q ∙ drop_one n job room

  -- the state of a tenant with one job, and how many it may publish
  abbrev Waits : PublishingJob → ℕ → List DeadLetter → PublishingStore → Type 0
  Waits job c letters s =
      (queue_of tenant s ≡ job ∷ [])
      × (get_daily_counter tenant day s ≡ c)
      × (s.dead_letters ≡ letters)

  run_retries :
      (job : PublishingJob) (c : ℕ) (letters : List DeadLetter) (s : PublishingStore) (w : W)
      → job.tenant_id ≡ tenant
      → Waits job c letters s
      → 0 < pos_part (policy.daily_target -ℤ pos c)
      → ltb_ℤ (pos job.retry_count) policy.retry_budget ≡ true
      → Waits
          (record job { retry_count = job.retry_count + 1 })
          c
          letters
          (run_for_tenant policy tenant day publish s w).1
  unfolding enqueue_publish_job dequeue_publish_jobs get_daily_counter
  run_retries job c letters s w own (q, count, same) room more =
      let room' : 0 < capacity_left policy tenant day publish s =
        subst (λ k. 0 < pos_part (policy.daily_target -ℤ pos k)) (sym count) room in
      let again : PublishingJob = record job { retry_count = job.retry_count + 1 } in
      rw (run_one job s w q room') (
        rw (settled_again job s more) (
          queue-enqueue tenant again
                (dequeue_publish_jobs tenant (capacity_left policy tenant day publish s) s).1 own
              ∙ ap (λ js. js ++ again ∷ []) (rest_empty job s q room'),
          count,
          same,
        ))

  run_buries :
      (job : PublishingJob) (c : ℕ) (letters : List DeadLetter) (s : PublishingStore) (w : W)
      → Waits job c letters s
      → 0 < pos_part (policy.daily_target -ℤ pos c)
      → ltb_ℤ (pos job.retry_count) policy.retry_budget ≡ false
      → let s' = (run_for_tenant policy tenant day publish s w).1 in
        (queue_of tenant s' ≡ []) × (s'.dead_letters ≡ letters ++ letter job e ∷ [])
  unfolding put_dead_letter dequeue_publish_jobs
  run_buries job c letters s w (q, count, same) room spent =
      let room' : 0 < capacity_left policy tenant day publish s =
        subst (λ k. 0 < pos_part (policy.daily_target -ℤ pos k)) (sym count) room in
      rw (run_one job s w q room') (
        rw (settled_dead job s spent)
          (rest_empty job s q room', ap (λ ls. ls ++ letter job e ∷ []) same))

  -- A job that can never be published, since publishing raises or answers a status other than
  -- "submitted", always with the same error, alone in the queue of its tenant, with k retries left of the
  -- budget, on a day with room for another job: after k + 1 daily runs the queue is empty, and the job
  -- is with the dead letters, with the number of its retries.
  pub runs_bury :
      (k : ℕ) (job : PublishingJob) (s : PublishingStore) (w : W)
      → job.tenant_id ≡ tenant
      → queue_of tenant s ≡ job ∷ []
      → policy.retry_budget ≡ pos (job.retry_count + k)
      → 0 < pos_part (policy.daily_target -ℤ pos (get_daily_counter tenant day s))
      → let s' = runs (suc k) s w in
        (queue_of tenant s' ≡ [])
        × (s'.dead_letters
            ≡ s.dead_letters ++ letter (record job { retry_count = job.retry_count + k }) e ∷ [])
  unfolding runs
  runs_bury zero job s w own q budget room =
      let none_left : ltb_ℤ (pos job.retry_count) policy.retry_budget ≡ false =
        rw budget (ground arith) in
      let kept : job.retry_count + 0 ≡ job.retry_count = omega arith in
      rw kept (run_buries job _ _ s w (q, refl, refl) room none_left)
  runs_bury (suc k) job s w own q budget room =
      let more : ltb_ℤ (pos job.retry_count) policy.retry_budget ≡ true =
        rw budget (ground arith) in
      let (q', count, same) = run_retries job _ _ s w own (q, refl, refl) room more in
      let again : PublishingJob = record job { retry_count = job.retry_count + 1 } in
      let shift : job.retry_count + 1 + k ≡ job.retry_count + suc k = omega arith in
      let (done, letters) =
        runs_bury k again _ (run_for_tenant policy tenant day publish s w).2 own q'
          (budget ∙ ap pos (sym shift))
          (subst (λ c. 0 < pos_part (policy.daily_target -ℤ pos c)) (sym count) room) in
      (
        done,
        letters
            ∙ ap (λ ls. ls ++ letter (record job { retry_count = job.retry_count + 1 + k }) e ∷ [])
                same
            ∙ ap (λ n. s.dead_letters ++ letter (record job { retry_count = n }) e ∷ []) shift,
      )
