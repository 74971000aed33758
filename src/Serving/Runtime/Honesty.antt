-- ===== src/Serving/Runtime/Honesty.antt =====
-- What the store holds as done was computed from features that were submitted for the job.
use zlttbots.Prelude.{
  ℕ, ◌≡◌, refl, sym, false, String, str_eq, string_eq, eq_iff, Option, none, some, List, [], ◌∷◌,
  ok, Error, truthy, All, All-append, subst, Bool-cases, Outcome-cases, Option-cases, inl, inr, ◌⊎◌,
}
use zlttbots.Prelude.Dict.{Dict, insert}
use zlttbots.Serving.Model.{Predictors, PredictionResult, FeatureVector, predict}
use zlttbots.Serving.Runtime.{
  RequestMessage, undecodable, request, Service, StoredResult, Update, Reply, no_update, stored,
  set_result, predict_async, request_round, serve_message, route_to_dlq, response_round, dlq_round,
  store_reply, failed_reply, done_reply, handle_request, publish_result, missing_fields,
  status_or_done, request_round_on, response_round_on, dlq_round_on, last_job,
}

some_inj : (a b : String) → some a ≡ some b → a ≡ b
some_inj a b e = cc

feature_inj : (f g : FeatureVector) → some f ≡ some g → f ≡ g
feature_inj f g e = cc

module _ (pr : Predictors) (P : String → FeatureVector → Type 0) where
  -- an update that says done has the score of features that satisfy P
  abbrev pub Honest : String → String → Option pr.Float → Type 0
  Honest job status score =
      (str_eq status "done" ≡ false)
      ⊎ ((f : FeatureVector) × (r : PredictionResult pr) × P job f
          × (predict pr f ≡ ok r)
          × (score ≡ some r.score))

  abbrev pub RequestOk : RequestMessage → Type 0
  RequestOk (undecodable e) = Unit
  RequestOk (request p) =
      (job : String) (f : FeatureVector) → p.job_id ≡ some job → p.features ≡ some f → P job f

  abbrev pub ReplyOk : Reply pr → Type 0
  ReplyOk r =
      (job : String)
      → r.job_id ≡ some job
      → Honest job (status_or_done r.update.status) r.update.score

  abbrev pub ResultsOk : Dict String (StoredResult pr) → Type 0
  ResultsOk d = All (λ e. Honest e.0 e.1.status e.1.score) d

  -- what every step keeps
  abbrev pub IsHonest : Service pr → Type 0
  IsHonest s =
      All RequestOk s.requests
      × All ReplyOk s.responses
      × All ReplyOk s.dead_letters
      × ResultsOk s.results

module _ {pr : Predictors} (P : String → FeatureVector → Type 0) where
  insert-ResultsOk :
      (k : String) (v : StoredResult pr) (d : Dict String (StoredResult pr))
      → Honest pr P k v.status v.score
      → ResultsOk pr P d
      → ResultsOk pr P (insert k v d)
  unfolding insert
  insert-ResultsOk k v [] h hs = (h, tt)
  insert-ResultsOk k v ((j, w) ∷ d) h (now, hs) = elim (Bool-cases (str_eq j k)) [
    | inl e ↦
        let same : j ≡ k = (eq_iff j k).0 e in
        rw e (subst (λ i. Honest pr P i v.status v.score) (sym same) h, hs)
    | inr e ↦ rw e (now, insert-ResultsOk k v d h hs)
  ]

  set_result-IsHonest :
      (job : String) (u : Update pr) (now : ℕ) (s : Service pr)
      → Honest pr P job (status_or_done u.status) u.score
      → IsHonest pr P s
      → IsHonest pr P (set_result job u now s).1
  unfolding set_result
  set_result-IsHonest job u now s h (a, b, c, d) = elim (Bool-cases (truthy job)) [
    | inl e ↦ rw e (a, b, c, insert-ResultsOk job (stored job u now) s.results h d)
    | inr e ↦ rw e (a, b, c, d)
  ]

  route_to_dlq-IsHonest :
      (e : Error) (s : Service pr) → IsHonest pr P s → IsHonest pr P (route_to_dlq e s)
  unfolding route_to_dlq
  route_to_dlq-IsHonest e s (a, b, c, d) = (
    a,
    b,
    All-append (ReplyOk pr P) s.dead_letters (failed_reply (last_job s.payload) e ∷ []) c
        ((λ job _. inl refl), tt),
    d,
  )

  publish_result-IsHonest :
      (job : String) (f : FeatureVector) (s : Service pr)
      → P job f
      → IsHonest pr P s
      → IsHonest pr P (publish_result job (predict pr f) s)
  unfolding publish_result
  publish_result-IsHonest job f s p (a, b, c, d) = elim (Outcome-cases (predict pr f)) [
    | inl (r, e) ↦
        rw (e, publish_result)
          (
            a,
            All-append (ReplyOk pr P) s.responses (done_reply job r ∷ []) b (
              (λ other same. inr (f, r, subst (λ j. P j f) (some_inj job other same) p, e, refl)),
              tt,
            ),
            c,
            d,
          )
    | inr (x, e) ↦ rw (e, publish_result) (route_to_dlq-IsHonest x s (a, b, c, d))
  ]

  handle_request-IsHonest :
      (j : Option String) (f : Option FeatureVector) (s : Service pr)
      → ((job : String) (g : FeatureVector) → j ≡ some job → f ≡ some g → P job g)
      → IsHonest pr P s
      → IsHonest pr P (handle_request j f s)
  unfolding handle_request missing_fields
  handle_request-IsHonest (some job) (some f) s p hs = elim (Bool-cases (truthy job)) [
    | inl e ↦ rw e (publish_result-IsHonest job f s (p job f refl refl) hs)
    | inr e ↦ rw e (route_to_dlq-IsHonest _ s hs)
  ]
  handle_request-IsHonest (some job) none s p hs = route_to_dlq-IsHonest _ s hs
  handle_request-IsHonest none f s p hs = route_to_dlq-IsHonest _ s hs

  pub request_round-IsHonest : (s : Service pr) → IsHonest pr P s → IsHonest pr P (request_round s)
  unfolding request_round serve_message
  request_round-IsHonest s (a, b, c, d) = on s.requests a
    where
      on :
          (ms : List RequestMessage)
          → All (RequestOk pr P) ms
          → IsHonest pr P (request_round_on ms s)
      on [] a' = (a, b, c, d)
      on (undecodable e ∷ ms) (_, rest) =
          route_to_dlq-IsHonest e (record s { requests = ms }) (rest, b, c, d)
      on (request p ∷ ms) (now, rest) =
          handle_request-IsHonest p.job_id p.features (record s { requests = ms; payload = some p })
            now (rest, b, c, d)

  store_reply-IsHonest :
      (r : Reply pr) (now : ℕ) (s : Service pr)
      → ReplyOk pr P r
      → IsHonest pr P s
      → IsHonest pr P (store_reply r now s)
  unfolding store_reply
  store_reply-IsHonest r now s h hs = elim (Option-cases r.job_id) [
    | inl e ↦ rw e hs
    | inr (job, e) ↦ rw e (set_result-IsHonest job r.update now s (h job e) hs)
  ]

  pub response_round-IsHonest :
      (now : ℕ) (s : Service pr) → IsHonest pr P s → IsHonest pr P (response_round now s)
  unfolding response_round
  response_round-IsHonest now s (a, b, c, d) = on s.responses b
    where
      on :
          (rs : List (Reply pr))
          → All (ReplyOk pr P) rs
          → IsHonest pr P (response_round_on rs now s)
      on [] b' = (a, b, c, d)
      on (r ∷ rs) (h, rest) =
          store_reply-IsHonest r now (record s { responses = rs }) h (a, rest, c, d)

  pub dlq_round-IsHonest :
      (now : ℕ) (s : Service pr) → IsHonest pr P s → IsHonest pr P (dlq_round now s)
  unfolding dlq_round
  dlq_round-IsHonest now s (a, b, c, d) = on s.dead_letters c
    where
      on : (rs : List (Reply pr)) → All (ReplyOk pr P) rs → IsHonest pr P (dlq_round_on rs now s)
      on [] c' = (a, b, c, d)
      on (r ∷ rs) (h, rest) =
          store_reply-IsHonest r now (record s { dead_letters = rs }) h (a, b, rest, d)

  pub predict_async-IsHonest :
      (job : String) (f : FeatureVector) (now : ℕ) (s : Service pr)
      → P job f
      → IsHonest pr P s
      → IsHonest pr P (predict_async job f now s)
  unfolding predict_async
  predict_async-IsHonest job f now s p hs =
      let (a, b, c, d) =
        set_result-IsHonest job
          (record (no_update pr) { status = some "queued"; model_version = some pr.model_version })
          now s (inl refl) hs in
      (
        All-append (RequestOk pr P) _ _ a (
          (λ other g same same_f.
              subst (λ h. P other h) (feature_inj f g same_f)
                (subst (λ j. P j f) (some_inj job other same) p)),
          tt,
        ),
        b,
        c,
        d,
      )
