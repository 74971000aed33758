-- ===== src/Deploy/Tests.antt =====
-- The deployment controller at concrete inputs.
use zlttbots.Prelude.{◌≡◌, refl, String, List, [], ◌∷◌, ◌++◌, ok, string_eq}
use zlttbots.Prelude.Dict.{lookup, insert}
use zlttbots.Deploy.Machine.{DeploymentState, building, succeeded, transition}
use zlttbots.Deploy.Store.{
  DeploymentCreateRequest, DeploymentEventRequest, DeploymentRecord, DeploymentStore, empty_store,
  create, apply_event, advanced, new_record, create_new, apply_to, advance,
}
use zlttbots.Deploy.Store.Laws.{create-create, empty_store-IsValid, events}
use zlttbots.Deploy.Store.Runs.{Call, creation, event, run, succeeded_was_built}
use zlttbots.Deploy.Endpoints.{Orchestrator}

abbrev lower : String → String
lower s = s

abbrev request : DeploymentCreateRequest
request = record {
  project_id = "p1";
  commit_sha = "abcdef0";
  environment = "production";
  idempotency_key = "key-0001";
}

abbrev signal : String → DeploymentEventRequest
signal name = record { deployment_id = "d1"; event_type = name; source = "ci"; metadata = [] }

create-create_example :
    let (first, s') = create lower "d1" "t1" request empty_store in
    (r : DeploymentRecord) × (first ≡ ok r) × (create lower "d2" "t2" request s' ≡ (ok r, s'))
create-create_example =
    create-create lower "d1" "d2" "t1" "t2" request request empty_store empty_store-IsValid refl

abbrev one_store : DeploymentStore
one_store = record {
  deployments = ("d1", new_record lower "d1" "t1" request) ∷ [];
  idempotency_index = ("key-0001", "d1") ∷ [];
}

abbrev first_record : DeploymentRecord
first_record = new_record lower "d1" "t1" request

abbrev calls : List Call
calls =
    creation "d1" "t1" request
    ∷ event "t2" (signal "build.started")
    ∷ event "t3" (signal "deploy.succeeded")
    ∷ event "t4" (signal "build.succeeded")
    ∷ event "t5" (signal "deploy.succeeded")
    ∷ []

abbrev final_record : DeploymentRecord
final_record = advanced "t5" (signal "deploy.succeeded") succeeded (
    advanced "t4" (signal "build.succeeded") DeploymentState.deploying
      (advanced "t2" (signal "build.started") building first_record))

succeeded_was_built_example :
    (before : List String) × (events final_record.history
      ≡ before ++ "build.succeeded" ∷ "deploy.succeeded" ∷ [])
unfolding run create apply_event transition lookup insert create_new apply_to advance
succeeded_was_built_example = succeeded_was_built lower calls "d1" final_record refl refl

abbrev orchestrator : Orchestrator
orchestrator = record { store = one_store; emitted = [] }
