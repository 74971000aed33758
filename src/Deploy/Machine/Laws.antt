-- ===== src/Deploy/Machine/Laws.antt =====
-- Runs of the state machine.
use zlttbots.Prelude.{
  ◌≡◌, refl, inl, inr, String, Option, none, some, List, [], ◌∷◌, ◌++◌, eq_iff, arith, Option-cases,
}
use zlttbots.Deploy.Machine.{
  DeploymentState, queued, building, failed, fixing, deploying, succeeded, transition, replay,
}

-- The way into `succeeded`, and the way into `deploying`.
to_succeeded :
    (s : DeploymentState) (e : String)
    → transition s e ≡ some succeeded
    → (s ≡ deploying) × (e ≡ "deploy.succeeded")
unfolding transition
to_succeeded queued e h = ground (arith, eq_iff "build.started" e)
to_succeeded building e h = ground (arith, eq_iff "build.failed" e, eq_iff "build.succeeded" e)
to_succeeded failed e h = ground (arith, eq_iff "ai.fix.started" e)
to_succeeded fixing e h = ground (arith, eq_iff "ai.fix.applied" e)
to_succeeded deploying e h = ground (arith, eq_iff "deploy.failed" e, eq_iff "deploy.succeeded" e)
to_succeeded succeeded e h = cc

to_deploying :
    (s : DeploymentState) (e : String)
    → transition s e ≡ some deploying
    → (s ≡ building) × (e ≡ "build.succeeded")
unfolding transition
to_deploying queued e h = ground (arith, eq_iff "build.started" e)
to_deploying building e h = ground (arith, eq_iff "build.failed" e, eq_iff "build.succeeded" e)
to_deploying failed e h = ground (arith, eq_iff "ai.fix.started" e)
to_deploying fixing e h = ground (arith, eq_iff "ai.fix.applied" e)
to_deploying deploying e h = ground (arith, eq_iff "deploy.failed" e, eq_iff "deploy.succeeded" e)
to_deploying succeeded e h = cc

-- How a run that ends in `succeeded` may look.
data EndsInSuccess (s : DeploymentState) (es : List String) : Type 0 where
  already : s ≡ succeeded → es ≡ [] → EndsInSuccess s es
  last_step : s ≡ deploying → es ≡ "deploy.succeeded" ∷ [] → EndsInSuccess s es
  built :
      (before : List String)
      → es ≡ before ++ "build.succeeded" ∷ "deploy.succeeded" ∷ []
      → EndsInSuccess s es

step_back :
    (s t : DeploymentState) (e : String) (es : List String)
    → transition s e ≡ some t
    → EndsInSuccess t es
    → EndsInSuccess s (e ∷ es)
step_back s t e es h (already p q) =
    let (from, event) = to_succeeded s e (rw p at h) in last_step from (cc)
step_back s t e es h (last_step p q) =
    let (from, event) = to_deploying s e (rw p at h) in built [] (cc)
step_back s t e es h (built before q) = built (e ∷ before) (rw q)

ends_in_success :
    (s : DeploymentState) (es : List String) → replay s es ≡ some succeeded → EndsInSuccess s es
unfolding replay
ends_in_success s [] h = already (cc) refl
ends_in_success s (e ∷ es) h = go (transition s e) refl h (λ t. ends_in_success t es)
  where
    go :
        (r : Option DeploymentState)
        → transition s e ≡ r
        → (elim r [ none ↦ none | some t ↦ replay t es ]) ≡ some succeeded
        → ((t : DeploymentState) → replay t es ≡ some succeeded → EndsInSuccess t es)
        → EndsInSuccess s (e ∷ es)
    go none q h ih = cc
    go (some t) q h ih = step_back s t e es q (ih t h)

-- A deployment succeeds only by a build that succeeded and then a deploy that succeeded, one right
-- after the other: every run from `queued` to `succeeded` ends in these two events.
pub replay-succeeded :
    (es : List String)
    → replay queued es ≡ some succeeded
    → (before : List String) × (es ≡ before ++ "build.succeeded" ∷ "deploy.succeeded" ∷ [])
replay-succeeded es h = conclude (ends_in_success queued es h)
  where
    conclude :
        EndsInSuccess queued es
        → (before : List String) × (es ≡ before ++ "build.succeeded" ∷ "deploy.succeeded" ∷ [])
    conclude (already p q) = cc
    conclude (last_step p q) = cc
    conclude (built before q) = (before, q)

-- Running one more event.
pub replay-append :
    (s t : DeploymentState) (es : List String) (e : String)
    → replay s es ≡ some t
    → replay s (es ++ e ∷ []) ≡ transition t e
unfolding replay
replay-append s t [] e h = ground arith
replay-append s t (x ∷ es) e h = elim (Option-cases (transition s x)) [
  | inl stuck ↦ let no_run = rw (stuck, replay) at h in cc
  | inr (u, goes) ↦ rw (goes, replay) (replay-append u t es e (rw (goes, replay) at h))
]
