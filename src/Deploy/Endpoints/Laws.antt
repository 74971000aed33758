-- ===== src/Deploy/Endpoints/Laws.antt =====
-- What a client of the deployment endpoints sees.
use zlttbots.Prelude.{
  ◌≡◌, refl, String, none, some, [], ◌∷◌, ◌++◌, ok, raised, http_error, string_eq,
}
use zlttbots.Prelude.Dict.{lookup}
use zlttbots.Deploy.Machine.{DeploymentState, transition}
use zlttbots.Deploy.Store.{DeploymentEventRequest, DeploymentRecord, advance, advanced}
use zlttbots.Deploy.Store.Laws.{apply_unknown, apply_known}
use zlttbots.Deploy.Endpoints.{Orchestrator, Decision, handle_deployment_event, after_event}

module _ (now : String) (p : DeploymentEventRequest) (o : Orchestrator) where
  -- An event is answered with 404 for a deployment that is not known, with 409 where the state machine
  -- does not allow it, and in both cases nothing is stored or emitted; an event that is allowed is
  -- answered with the new record, and emits one decision, with the new state.
  pub handle_deployment_event_lem :
      (lookup p.deployment_id o.store.deployments ≡ none
        → handle_deployment_event now p o ≡ (raised (http_error 404 "deployment not found"), o))
      × ((r : DeploymentRecord)
          → lookup p.deployment_id o.store.deployments ≡ some r
          → transition r.state p.event_type ≡ none
          → (detail : String) × (handle_deployment_event now p o
              ≡ (raised (http_error 409 detail), o)))
      × ((r : DeploymentRecord) (t : DeploymentState)
          → lookup p.deployment_id o.store.deployments ≡ some r
          → transition r.state p.event_type ≡ some t
          → let (result, o') = handle_deployment_event now p o in
            (result ≡ ok (advanced now p t r))
            × ((d : Decision) × (o'.emitted ≡ o.emitted ++ d ∷ []) × (d.state ≡ t)))
  unfolding handle_deployment_event advance after_event
  handle_deployment_event_lem = (
    λ e. rw (apply_unknown now p o.store e),
    λ r e stuck. rw (apply_known now p r o.store e) (rw (stuck, advance) (_, refl)),
    λ r t e goes. rw (apply_known now p r o.store e) (rw (goes, advance) (refl, (_, refl, refl))),
  )
