-- ===== src/Serving/Runtime/Events.antt =====
-- What holds of the results after any sequence of events.
use zlttbots.Prelude.{ℕ, suc, String, Option, List, [], ◌∷◌, ◌++◌, Error, All, All-append}
use zlttbots.Serving.Model.{Predictors, FeatureVector}
use zlttbots.Serving.Runtime.{
  RequestPayload, undecodable, Service, predict_async, request_round, response_round, dlq_round,
}
use zlttbots.Serving.Runtime.Honesty.{
  RequestOk, ResultsOk, IsHonest, request_round-IsHonest, response_round-IsHonest,
  dlq_round-IsHonest, predict_async-IsHonest,
}

-- what can happen to the service, in any order
pub data Event : Type 0 where
  submit : String → FeatureVector → Event
  arrive : Error → Event
  serve store_response store_dead_letter : Event

-- the events one after the other, each at its time
unfoldable pub happen : {pr : Predictors} → List Event → ℕ → Service pr → Service pr
happen [] now s = s
happen (submit job f ∷ es) now s = happen es (suc now) (predict_async job f now s)
happen (arrive e ∷ es) now s =
    happen es (suc now) (record s { requests = s.requests ++ undecodable e ∷ [] })
happen (serve ∷ es) now s = happen es (suc now) (request_round s)
happen (store_response ∷ es) now s = happen es (suc now) (response_round now s)
happen (store_dead_letter ∷ es) now s = happen es (suc now) (dlq_round now s)

-- whether some event submits these features for the job
abbrev pub Submitted : (String → FeatureVector → Type 0) → List Event → Type 0
Submitted P es = All (λ e. elim e [ submit job f ↦ P job f | _ ↦ Unit ]) es

module _ {pr : Predictors} (P : String → FeatureVector → Type 0) where
  happen-IsHonest :
      (es : List Event) (now : ℕ) (s : Service pr)
      → Submitted P es
      → IsHonest pr P s
      → IsHonest pr P (happen es now s)
  unfolding happen
  happen-IsHonest [] now s p h = h
  happen-IsHonest (submit job f ∷ es) now s (p, ps) h =
      happen-IsHonest es (suc now) _ ps (predict_async-IsHonest P job f now s p h)
  happen-IsHonest (arrive e ∷ es) now s (p, ps) (a, b, c, d) =
      happen-IsHonest es (suc now) _ ps
        (All-append (RequestOk pr P) s.requests (undecodable e ∷ []) a (tt, tt), b, c, d)
  happen-IsHonest (serve ∷ es) now s (p, ps) h =
      happen-IsHonest es (suc now) _ ps (request_round-IsHonest P s h)
  happen-IsHonest (store_response ∷ es) now s (p, ps) h =
      happen-IsHonest es (suc now) _ ps (response_round-IsHonest P now s h)
  happen-IsHonest (store_dead_letter ∷ es) now s (p, ps) h =
      happen-IsHonest es (suc now) _ ps (dlq_round-IsHonest P now s h)

-- with nothing stored or waiting
abbrev pub idle : (pr : Predictors) → Option RequestPayload → Service pr
idle pr payload = record {
  results = [];
  requests = [];
  responses = [];
  dead_letters = [];
  payload = payload;
}

module _ (pr : Predictors) (P : String → FeatureVector → Type 0) where
  -- After any interleaving of submissions, messages that cannot be decoded, and rounds of the two
  -- consumers, from a service with nothing stored or waiting: each result that is stored as done has the
  -- score that the prediction gives for features that were submitted for that job. Here P stands for
  -- what was submitted: whatever holds of every submission holds of those features.
  pub results_honest :
      (es : List Event) (now : ℕ) (payload : Option RequestPayload)
      → Submitted P es
      → ResultsOk pr P (happen es now (idle pr payload)).results
  results_honest es now payload p =
      let (_, _, _, d) = happen-IsHonest P es now (idle pr payload) p (tt, tt, tt, tt) in d
