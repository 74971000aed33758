-- ===== src/Deploy/Machine.antt =====
-- `DeploymentState` and `ALLOWED_TRANSITIONS`.
pub mod Laws
use zlttbots.Prelude.{String, Option, none, some, List, [], ◌∷◌, string_eq}
use zlttbots.Prelude.Dict.{Dict, lookup}

pub data DeploymentState : Type 0 where
  queued building failed fixing deploying succeeded : DeploymentState

abbrev pub allowed_transitions : DeploymentState → Dict String DeploymentState
allowed_transitions queued = ("build.started", building) ∷ []
allowed_transitions building = ("build.failed", failed) ∷ ("build.succeeded", deploying) ∷ []
allowed_transitions failed = ("ai.fix.started", fixing) ∷ []
allowed_transitions fixing = ("ai.fix.applied", building) ∷ []
allowed_transitions deploying = ("deploy.failed", failed) ∷ ("deploy.succeeded", succeeded) ∷ []
allowed_transitions succeeded = []

-- `allowed[event_type]`, if it is there
unfoldable pub transition : DeploymentState → String → Option DeploymentState
unfolding lookup
transition state event = lookup event (allowed_transitions state)

-- f"{state}"
abbrev pub show_state : DeploymentState → String
show_state queued = "DeploymentState.queued"
show_state building = "DeploymentState.building"
show_state failed = "DeploymentState.failed"
show_state fixing = "DeploymentState.fixing"
show_state deploying = "DeploymentState.deploying"
show_state succeeded = "DeploymentState.succeeded"

-- The state that a run of events leads to, if each of them is allowed where it comes.
unfoldable pub replay : DeploymentState → List String → Option DeploymentState
unfolding transition
replay s [] = some s
replay s (e ∷ es) = elim (transition s e) [ none ↦ none | some t ↦ replay t es ]
