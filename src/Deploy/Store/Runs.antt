-- ===== src/Deploy/Store/Runs.antt =====
-- Whole runs of the store: any requests, in any order, from the empty store on.
use zlttbots.Prelude.{◌≡◌, String, some, List, [], ◌∷◌, ◌++◌, string_eq}
use zlttbots.Prelude.Dict.{lookup}
use zlttbots.Deploy.Machine.{succeeded}
use zlttbots.Deploy.Machine.Laws.{replay-succeeded}
use zlttbots.Deploy.Store.{
  DeploymentCreateRequest, DeploymentEventRequest, DeploymentRecord, DeploymentStore, empty_store,
  create, apply_event,
}
use zlttbots.Deploy.Store.Laws.{
  IsValid, events, empty_store-IsValid, create-IsValid, apply_event-IsValid,
}

-- A call of the store, with the id and the time that it draws.
pub data Call : Type 0 where
  creation : String → String → DeploymentCreateRequest → Call
  event : String → DeploymentEventRequest → Call

module _ (lower : String → String) where
  unfoldable pub step : Call → DeploymentStore → DeploymentStore
  step (creation id now p) s = (create lower id now p s).1
  step (event now p) s = (apply_event now p s).1

  unfoldable pub run : List Call → DeploymentStore → DeploymentStore
  unfolding step
  run [] s = s
  run (c ∷ cs) s = run cs (step c s)

  step-IsValid : (c : Call) (s : DeploymentStore) → IsValid s → IsValid (step c s)
  unfolding step
  step-IsValid (creation id now p) s valid = create-IsValid lower id now p s valid
  step-IsValid (event now p) s valid = apply_event-IsValid now p s valid

  pub run-IsValid : (cs : List Call) (s : DeploymentStore) → IsValid s → IsValid (run cs s)
  unfolding run
  run-IsValid [] s valid = valid
  run-IsValid (c ∷ cs) s valid = run-IsValid cs (step c s) (step-IsValid c s valid)

  -- After any calls of the store, from the empty one on, a deployment that stands as succeeded has a
  -- history whose last two events are a build that succeeded and a deploy that succeeded.
  pub succeeded_was_built :
      (cs : List Call) (id : String) (r : DeploymentRecord)
      → lookup id (run cs empty_store).deployments ≡ some r
      → r.state ≡ succeeded
      → (before : List String) × (events r.history
          ≡ before ++ "build.succeeded" ∷ "deploy.succeeded" ∷ [])
  succeeded_was_built cs id r there done =
      let (own, some_entry, accounted) =
        (run-IsValid cs empty_store empty_store-IsValid).accountable id r there in
      replay-succeeded (events r.history) (rw (← done) accounted)
