-- ===== src/Serving/Runtime/Stale.antt =====
-- A message that cannot be decoded fails the job of the message before it.
use zlttbots.Prelude.{
  ℕ, ◌≡◌, refl, ◌∙◌, true, String, string_eq, Option, some, List, [], ◌∷◌, ◌++◌, ok, Error, truthy,
  ap,
}
use zlttbots.Prelude.Dict.{Dict, insert, lookup, lookup-insert_self}
use zlttbots.Serving.Model.{Predictors, PredictionResult, FeatureVector, predict}
use zlttbots.Serving.Runtime.{
  RequestPayload, RequestMessage, undecodable, request, Service, StoredResult, Reply, Update,
  stored, set_result, get_result, request_round, serve_message, route_to_dlq, response_round,
  dlq_round, store_reply, failed_reply, done_reply, handle_request, publish_result,
}

module _ {pr : Predictors} where
  -- both messages are served and both replies are stored
  abbrev pub four_rounds : ℕ → Service pr → Service pr
  four_rounds now s = dlq_round now (response_round now (request_round (request_round s)))

  -- a job with a message behind it that is no object, and no reply on its way
  abbrev pub followed :
      String
      → FeatureVector
      → Error
      → Dict String (StoredResult pr)
      → Option RequestPayload
      → Service pr
  followed job f e results payload = record {
    results = results;
    requests = request (record { job_id = some job; features = some f }) ∷ undecodable e ∷ [];
    responses = [];
    dead_letters = [];
    payload = payload;
  }

  served :
      (job : String) (f : FeatureVector) (r : PredictionResult pr) (s : Service pr)
      → truthy job ≡ true
      → predict pr f ≡ ok r
      → handle_request (some job) (some f) s
        ≡ record s { responses = s.responses ++ done_reply job r ∷ [] }
  unfolding handle_request publish_result
  served job f r s named good = rw named (rw (good, publish_result) refl)

  set_result_named :
      (job : String) (u : Update pr) (now : ℕ) (s : Service pr)
      → truthy job ≡ true
      → (set_result job u now s).1 ≡ record s { results = insert job (stored job u now) s.results }
  unfolding set_result
  set_result_named job u now s named = rw named refl

  get_result_named :
      (job : String) (s : Service pr) → truthy job ≡ true → get_result job s ≡ lookup job s.results
  unfolding get_result
  get_result_named job s named = rw named refl

  -- A job whose prediction succeeds, followed by a message that is no JSON object, with no other reply on
  -- its way: if both are served, then the response is stored and after it the dead letter, the job has
  -- failed, with the error of the other message, whatever the prediction was.
  pub stale_failure :
      (job : String) (f : FeatureVector) (r : PredictionResult pr) (e : Error) (now : ℕ)
      (results : Dict String (StoredResult pr)) (payload : Option RequestPayload)
      → truthy job ≡ true
      → predict pr f ≡ ok r
      → get_result job (four_rounds now (followed job f e results payload))
        ≡ some (stored job (failed_reply (some job) e).update now)
  unfolding request_round serve_message route_to_dlq response_round dlq_round store_reply
  stale_failure job f r e now results payload named good =
      let p : RequestPayload = record { job_id = some job; features = some f } in
      let after : List RequestMessage
          → List (Reply pr)
          → List (Reply pr)
          → Dict String (StoredResult pr)
          → Service pr =
        λ requests responses dead d. record {
          results = d;
          requests = requests;
          responses = responses;
          dead_letters = dead;
          payload = some p;
        } in
      let first : request_round (followed job f e results payload)
          ≡ after (undecodable e ∷ []) (done_reply job r ∷ []) [] results =
        served job f r (after (undecodable e ∷ []) [] [] results) named good in
      let done = insert job (stored job (done_reply job r).update now) results in
      let third : response_round now
            (after [] (done_reply job r ∷ []) (failed_reply (some job) e ∷ []) results)
          ≡ after [] [] (failed_reply (some job) e ∷ []) done =
        set_result_named job (done_reply job r).update now
          (after [] [] (failed_reply (some job) e ∷ []) results) named in
      let fourth : dlq_round now (after [] [] (failed_reply (some job) e ∷ []) done)
          ≡ after [] [] [] (insert job (stored job (failed_reply (some job) e).update now) done) =
        set_result_named job (failed_reply (some job) e).update now (after [] [] [] done) named in
      ap (λ s. get_result job (dlq_round now (response_round now (request_round s)))) first
      ∙ ap (λ s. get_result job (dlq_round now s)) third
      ∙ ap (get_result job) fourth
      ∙ get_result_named job _ named
      ∙ lookup-insert_self job _ done
