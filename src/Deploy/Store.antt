-- ===== src/Deploy/Store.antt =====
-- `DeploymentStore`: the records by their ids, and the ids by the idempotency keys of the requests.
-- Its lock makes each method one step; logging is not modelled.
pub mod Laws
pub mod Runs
use zlttbots.Prelude.{
  String, Option, none, some, List, [], ◌∷◌, ◌++◌, string_eq, concat, Outcome, ok, raised,
  key_error, value_error,
}
use zlttbots.Prelude.Dict.{Dict, lookup, insert}
use zlttbots.Prelude.Value.{Payload, Value}
use zlttbots.Deploy.Machine.{DeploymentState, queued, transition, show_state}

pub record DeploymentCreateRequest : Type 0 where
  pub project_id : String
  pub commit_sha : String
  pub environment : String
  pub idempotency_key : String

pub record DeploymentEventRequest : Type 0 where
  pub deployment_id : String
  pub event_type : String
  pub source : String
  pub metadata : Payload

-- an entry of `history`; the first one has no next state
pub record HistoryEntry : Type 0 where
  pub event_type : String
  pub source : String
  pub timestamp : String
  pub metadata : Payload
  pub next_state : Option DeploymentState

pub record DeploymentRecord : Type 0 where
  pub deployment_id : String
  pub project_id : String
  pub commit_sha : String
  pub environment : String
  pub state : DeploymentState
  pub created_at : String
  pub updated_at : String
  pub history : List HistoryEntry

pub record DeploymentStore : Type 0 where
  pub deployments : Dict String DeploymentRecord
  pub idempotency_index : Dict String String

abbrev pub empty_store : DeploymentStore
empty_store = record { deployments = []; idempotency_index = [] }

-- `self._deployments[deployment_id]`
unfoldable pub fetch : String → DeploymentStore → Outcome DeploymentRecord
fetch id s = elim (lookup id s.deployments) [
  | none ↦ raised (key_error "deployment not found")
  | some r ↦ ok r
]

abbrev pub created_entry : (String → String) → String → DeploymentCreateRequest → HistoryEntry
created_entry lower now p = record {
  event_type = "deployment.created";
  source = "platform-core";
  timestamp = now;
  metadata =
      ("project_id", Value.text p.project_id)
      ∷ ("commit_sha", Value.text p.commit_sha)
      ∷ ("environment", Value.text (lower p.environment))
      ∷ [];
  next_state = none;
}

abbrev pub new_record :
    (String → String) → String → String → DeploymentCreateRequest → DeploymentRecord
new_record lower id now p = record {
  deployment_id = id;
  project_id = p.project_id;
  commit_sha = p.commit_sha;
  environment = lower p.environment;
  state = queued;
  created_at = now;
  updated_at = now;
  history = created_entry lower now p ∷ [];
}

-- the part of `create` behind the lookup of the key; `id` is the value of `uuid4()`
unfoldable pub create_new :
    (String → String)
    → String
    → String
    → DeploymentCreateRequest
    → Option String
    → DeploymentStore
    → Outcome DeploymentRecord × DeploymentStore
unfolding fetch
create_new lower id now p (some known) s = (fetch known s, s)
create_new lower id now p none s =
    let r = new_record lower id now p in
    (
      ok r,
      record {
        deployments = insert id r s.deployments;
        idempotency_index = insert p.idempotency_key id s.idempotency_index;
      },
    )

unfoldable pub create :
    (String → String)
    → String
    → String
    → DeploymentCreateRequest
    → DeploymentStore
    → Outcome DeploymentRecord × DeploymentStore
unfolding create_new
create lower id now p s = create_new lower id now p (lookup p.idempotency_key s.idempotency_index) s

-- the record after an event that is allowed
abbrev pub advanced :
    String → DeploymentEventRequest → DeploymentState → DeploymentRecord → DeploymentRecord
advanced now p next r = record r {
  state = next;
  updated_at = now;
  history =
      r.history
      ++ record {
        event_type = p.event_type;
        source = p.source;
        timestamp = now;
        metadata = p.metadata;
        next_state = some next;
      }
        ∷ [];
}

-- the part of `apply_event` behind the lookup of the transition
unfoldable pub advance :
    String
    → DeploymentEventRequest
    → DeploymentRecord
    → Option DeploymentState
    → DeploymentStore
    → Outcome DeploymentRecord × DeploymentStore
advance now p r none s = (
  raised (
      value_error (
        concat (
          "event "
          ∷ p.event_type
          ∷ " is invalid when deployment is in state "
          ∷ show_state r.state
          ∷ []))),
  s,
)
advance now p r (some next) s = (
  ok (advanced now p next r),
  record s { deployments = insert p.deployment_id (advanced now p next r) s.deployments },
)

-- the part of `apply_event` behind the lookup of the record
unfoldable pub apply_to :
    String
    → DeploymentEventRequest
    → Option DeploymentRecord
    → DeploymentStore
    → Outcome DeploymentRecord × DeploymentStore
unfolding advance
apply_to now p none s = (raised (key_error "deployment not found"), s)
apply_to now p (some r) s = advance now p r (transition r.state p.event_type) s

unfoldable pub apply_event :
    String → DeploymentEventRequest → DeploymentStore → Outcome DeploymentRecord × DeploymentStore
unfolding apply_to
apply_event now p s = apply_to now p (lookup p.deployment_id s.deployments) s
