-- ===== src/Serving/Runtime.antt =====
-- queue_runtime.py and result_store.py, and the endpoints of main.py that put a job into the queue and
-- read its result. Each function is one step: a consumer takes one message off its topic. The results
-- are read before they run out.
pub mod Honesty
pub mod Events
pub mod Stale
use zlttbots.Prelude.{
  ℕ, zero, suc, Bool, true, false, not, ◌||◌, String, str_eq, string_eq, Option, none, some, List,
  [], ◌∷◌, ◌++◌, Outcome, ok, raised, Error, value_error, raise_if, ◌>>◌, ◌>>=◌, truthy,
  if◌then◌else◌,
}
use zlttbots.Prelude.Dict.{Dict, insert, lookup}
use zlttbots.Serving.Model.{FeatureVector, Predictors, PredictionResult, predict}

module _ (pr : Predictors) where
  -- the fields that the store takes from a payload; one that is missing is none
  pub record Update : Type 0 where
    pub status : Option String
    pub score : Option pr.Float
    pub ctr : Option pr.Float
    pub cvr : Option pr.Float
    pub model_version : Option String
    pub error : Option Error

  pub record StoredResult : Type 0 where
    pub job_id : String
    pub status : String
    pub score : Option pr.Float
    pub ctr : Option pr.Float
    pub cvr : Option pr.Float
    pub model_version : Option String
    pub error : Option Error
    pub updated_at : ℕ

  -- the payload of a response, and that of the dead letters
  pub record Reply : Type 0 where
    pub job_id : Option String
    pub update : Update

-- a message of the request topic, once it is decoded: an object, of which the code reads two keys
pub record RequestPayload : Type 0 where
  pub job_id : Option String
  pub features : Option FeatureVector

pub data RequestMessage : Type 0 where
  -- not JSON, or not an object
  undecodable : Error → RequestMessage
  request : RequestPayload → RequestMessage

module _ (pr : Predictors) where
  -- the store, the topics, and the variable `payload` of the request loop, which a round leaves behind
  pub record Service : Type 0 where
    pub results : Dict String (StoredResult pr)
    pub requests : List RequestMessage
    pub responses : List (Reply pr)
    pub dead_letters : List (Reply pr)
    pub payload : Option RequestPayload

  abbrev pub no_update : Update pr
  no_update = record {
    status = none;
    score = none;
    ctr = none;
    cvr = none;
    model_version = none;
    error = none;
  }

-- `payload.get("status", "done")`
abbrev pub status_or_done : Option String → String
status_or_done none = "done"
status_or_done (some s) = s

-- the identifier of the job in the variable `payload`, if there is one
abbrev pub last_job : Option RequestPayload → Option String
last_job none = none
last_job (some p) = p.job_id

module _ {pr : Predictors} where
  abbrev pub stored : String → Update pr → ℕ → StoredResult pr
  stored job_id u now = record {
    job_id = job_id;
    status = status_or_done u.status;
    score = u.score;
    ctr = u.ctr;
    cvr = u.cvr;
    model_version = u.model_version;
    error = u.error;
    updated_at = now;
  }

  unfoldable pub set_result :
      String → Update pr → ℕ → Service pr → Outcome (StoredResult pr) × Service pr
  set_result job_id u now s =
      if truthy job_id
      then (
        ok (stored job_id u now),
        record s { results = insert job_id (stored job_id u now) s.results },
      )
      else (raised (value_error "job_id is required"), s)

  unfoldable pub get_result : String → Service pr → Option (StoredResult pr)
  get_result job_id s = if truthy job_id then lookup job_id s.results else none

  -- `predict_async`, for a job with an identifier, which is a new one where no key is given
  unfoldable pub predict_async : String → FeatureVector → ℕ → Service pr → Service pr
  unfolding set_result
  predict_async job_id f now s =
      let queued : Update pr = record (no_update pr) {
        status = some "queued";
        model_version = some pr.model_version;
      } in
      let s' = (set_result job_id queued now s).1 in
      record s' {
        requests = s'.requests ++ request (record { job_id = some job_id; features = some f }) ∷ [];
      }

  abbrev pub failed_reply : Option String → Error → Reply pr
  failed_reply job_id e = record {
    job_id = job_id;
    update = record (no_update pr) { status = some "failed"; error = some e };
  }

  abbrev pub done_reply : String → PredictionResult pr → Reply pr
  done_reply job_id r = record {
    job_id = some job_id;
    update = record (no_update pr) {
      status = some "done";
      score = some r.score;
      ctr = some r.ctr;
      cvr = some r.cvr;
      model_version = some r.model_version;
    };
  }

  abbrev pub respond : Reply pr → Service pr → Service pr
  respond r s = record s { responses = s.responses ++ r ∷ [] }

  -- the branch for an exception
  unfoldable pub route_to_dlq : Error → Service pr → Service pr
  route_to_dlq e s = record s {
    dead_letters = s.dead_letters ++ failed_reply (last_job s.payload) e ∷ [];
  }

  unfoldable pub publish_result : String → Outcome (PredictionResult pr) → Service pr → Service pr
  unfolding route_to_dlq
  publish_result job_id (ok r) s = respond (done_reply job_id r) s
  publish_result job_id (raised e) s = route_to_dlq e s

  unfoldable pub missing_fields : Service pr → Service pr
  unfolding route_to_dlq
  missing_fields s = route_to_dlq (value_error "job_id and features object are required") s

  -- the part of the round behind a message that was decoded; features that do not pass their checks
  -- raise like those that are missing
  unfoldable pub handle_request : Option String → Option FeatureVector → Service pr → Service pr
  unfolding publish_result missing_fields
  handle_request (some job_id) (some f) s =
      if truthy job_id then publish_result job_id (predict pr f) s else missing_fields s
  handle_request (some job_id) none s = missing_fields s
  handle_request none f s = missing_fields s

  -- a round of `_request_loop`
  unfoldable pub serve_message : RequestMessage → Service pr → Service pr
  unfolding handle_request route_to_dlq
  serve_message (undecodable e) s = route_to_dlq e s
  serve_message (request p) s = handle_request p.job_id p.features (record s { payload = some p })

  abbrev pub request_round_on : List RequestMessage → Service pr → Service pr
  request_round_on [] s = s
  request_round_on (m ∷ ms) s = serve_message m (record s { requests = ms })

  unfoldable pub request_round : Service pr → Service pr
  unfolding serve_message
  request_round s = request_round_on s.requests s

  -- a round of `_response_loop`, behind its message; an error is only logged
  unfoldable pub store_reply : Reply pr → ℕ → Service pr → Service pr
  unfolding set_result
  store_reply r now s = elim r.job_id [
    | none ↦ s
    | some job_id ↦ (set_result job_id r.update now s).1
  ]

  abbrev pub response_round_on : List (Reply pr) → ℕ → Service pr → Service pr
  response_round_on [] now s = s
  response_round_on (r ∷ rs) now s = store_reply r now (record s { responses = rs })

  abbrev pub dlq_round_on : List (Reply pr) → ℕ → Service pr → Service pr
  dlq_round_on [] now s = s
  dlq_round_on (r ∷ rs) now s = store_reply r now (record s { dead_letters = rs })

  -- the consumer takes a message off either of its two topics
  unfoldable pub response_round : ℕ → Service pr → Service pr
  unfolding store_reply
  response_round now s = response_round_on s.responses now s

  unfoldable pub dlq_round : ℕ → Service pr → Service pr
  unfolding store_reply
  dlq_round now s = dlq_round_on s.dead_letters now s
