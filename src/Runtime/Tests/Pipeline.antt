-- ===== src/Runtime/Tests/Pipeline.antt =====
-- The pipeline's optimizer and the healer of manifests at concrete inputs.
use zlttbots.Prelude.{ℕ, ◌≡◌, refl, true, false, Bool, List, [], ◌∷◌, some, ok, ◌==◌, String}
use zlttbots.Prelude.Int.{ℤ, pos, floor_div, ◌+ℤ◌}
use zlttbots.Prelude.Sorting.{sorted, place}
use zlttbots.Runtime.Planning.{
  StageTiming, OptimizationPlan, optimize, plan, validate_stages, longest, total,
}
use zlttbots.Runtime.Healing.{Manifests, ManifestDrift, detect_drift, heal, validate_drift}

-- a fifth more, rounded down
abbrev stretched : ℤ → ℤ
stretched n = floor_div (n +ℤ n +ℤ n +ℤ n +ℤ n +ℤ n) 5

abbrev stage : String → ℤ → Bool → StageTiming
stage name duration parallel = record {
  stage = name;
  duration_seconds = duration;
  parallelizable = parallel;
}

abbrev timings : List StageTiming
timings =
    stage "lint" (pos 30) true ∷ stage "build" (pos 60) false ∷ stage "test" (pos 90) true ∷ []

abbrev timings_plan : OptimizationPlan
timings_plan = record {
  ordered_groups = ("test" ∷ "lint" ∷ []) ∷ ("build" ∷ []) ∷ [];
  predicted_duration_seconds = pos 150;
  recommended_timeout_seconds = pos 210;
}

plan_made : optimize stretched timings ≡ ok timings_plan
unfolding optimize plan validate_stages sorted place longest total ◌+ℤ◌
plan_made = refl

-- a manifest that is a number of replicas
abbrev replicas : Manifests
replicas = record {
  Manifest = ℕ;
  equal = λ a b. a == b;
  is_empty = λ a. a == 0;
  json_copy = λ a. ok a;
}

abbrev drift : ManifestDrift replicas
drift = record { kind = "helm"; name = "gateway"; desired = 3; current = 1 }

drift_found : detect_drift drift ≡ ok (some drift)
unfolding detect_drift validate_drift
drift_found = refl

drift_healed : heal drift ≡ ok 3
unfolding heal validate_drift
drift_healed = refl
