-- ===== src/Deploy/Endpoints.antt =====
-- The three deployment endpoints of services/master-orchestrator/src/main.py. They turn the store's
-- errors into HTTP errors, and emit a decision for each change. Emitting never raises: the producer's
-- failures are only logged.
pub mod Laws
use zlttbots.Prelude.{
  String, Option, none, some, List, [], ◌∷◌, ◌++◌, Outcome, Error, ok, raised, key_error,
  value_error, http_error,
}
use zlttbots.Deploy.Machine.{DeploymentState}
use zlttbots.Deploy.Store.{
  DeploymentStore, DeploymentRecord, DeploymentCreateRequest, DeploymentEventRequest, create,
  apply_event, fetch,
}

-- the payload of `emit_decision`: the creation has no source
pub record Decision : Type 0 where
  pub event_type : String
  pub deployment_id : String
  pub project_id : String
  pub environment : String
  pub state : DeploymentState
  pub at : String
  pub source : Option String

pub record Orchestrator : Type 0 where
  pub store : DeploymentStore
  pub emitted : List Decision

-- `except KeyError`, `except ValueError`
abbrev pub http_of : Error → Error
http_of (key_error _) = http_error 404 "deployment not found"
http_of (value_error detail) = http_error 409 detail
http_of e = e

abbrev pub emit : Decision → Orchestrator → Orchestrator
emit d o = record o { emitted = o.emitted ++ d ∷ [] }

-- the part of `create_deployment` behind the store's call
unfoldable pub after_create :
    Outcome DeploymentRecord → Orchestrator → Outcome DeploymentRecord × Orchestrator
after_create (raised e) o = (raised e, o)
after_create (ok r) o = (
  ok r,
  emit
      (record {
        event_type = "deploy.requested";
        deployment_id = r.deployment_id;
        project_id = r.project_id;
        environment = r.environment;
        state = r.state;
        at = r.created_at;
        source = none;
      })
      o,
)

unfoldable pub create_deployment :
    (String → String)
    → String
    → String
    → DeploymentCreateRequest
    → Orchestrator
    → Outcome DeploymentRecord × Orchestrator
unfolding after_create
create_deployment lower id now p o =
    let (result, store) = create lower id now p o.store in
    after_create result (record o { store = store })

unfoldable pub get_deployment : String → Orchestrator → Outcome DeploymentRecord
get_deployment id o = elim (fetch id o.store) [ ok r ↦ ok r | raised e ↦ raised (http_of e) ]

-- the part of `handle_deployment_event` behind the store's call
unfoldable pub after_event :
    DeploymentEventRequest
    → Outcome DeploymentRecord
    → Orchestrator
    → Outcome DeploymentRecord × Orchestrator
after_event p (raised e) o = (raised (http_of e), o)
after_event p (ok r) o = (
  ok r,
  emit
      (record {
        event_type = p.event_type;
        deployment_id = r.deployment_id;
        project_id = r.project_id;
        environment = r.environment;
        state = r.state;
        at = r.updated_at;
        source = some p.source;
      })
      o,
)

unfoldable pub handle_deployment_event :
    String → DeploymentEventRequest → Orchestrator → Outcome DeploymentRecord × Orchestrator
unfolding after_event
handle_deployment_event now p o =
    let (result, store) = apply_event now p o.store in
    after_event p result (record o { store = store })
