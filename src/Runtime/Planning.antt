-- ===== src/Runtime/Planning.antt =====
-- enterprise_maturity/v3_runtime/deployment_pipeline.py, `PipelineAIOptimizer`. What a float does to
-- the predicted time, `int(predicted * 1.2)`, is a parameter.
pub mod Laws
use zlttbots.Prelude.{
  Bool, true, false, not, ◌||◌, ◌&&◌, String, str_eq, List, [], ◌∷◌, ◌++◌, map, keep_if, any_of,
  Outcome, ok, raised, value_error, raise_if, ◌>>◌, ◌>>=◌, truthy, concat, text_leb, if◌then◌else◌,
}
use zlttbots.Prelude.Int.{ℤ, pos, ◌+ℤ◌, leb_ℤ, ltb_ℤ, max_ℤ}
use zlttbots.Prelude.Sorting.{sorted}

pub record StageTiming : Type 0 where
  pub stage : String
  pub duration_seconds : ℤ
  pub parallelizable : Bool

pub record OptimizationPlan : Type 0 where
  pub ordered_groups : List (List String)
  pub predicted_duration_seconds : ℤ
  pub recommended_timeout_seconds : ℤ

-- `_validate`, with the names seen so far
unfoldable pub validate_stages : List String → List StageTiming → Outcome (Unit {0})
validate_stages seen [] = ok tt
validate_stages seen (s ∷ ss) = do
  raise_if (not (truthy s.stage)) (value_error "stage name cannot be empty")
  raise_if (leb_ℤ s.duration_seconds (pos 0)) (value_error "duration must be positive")
  raise_if (any_of (str_eq s.stage) seen)
      (value_error (concat ("duplicate stage found: " ∷ s.stage ∷ [])))
  validate_stages (s.stage ∷ seen) ss

-- `(-a.duration_seconds, a.stage) <= (-b.duration_seconds, b.stage)`
abbrev pub longer_first : StageTiming → StageTiming → Bool
longer_first a b =
    ltb_ℤ b.duration_seconds a.duration_seconds
    || (leb_ℤ b.duration_seconds a.duration_seconds && text_leb a.stage b.stage)

abbrev pub by_name : StageTiming → StageTiming → Bool
by_name a b = text_leb a.stage b.stage

abbrev pub parallel_sorted : List StageTiming → List StageTiming
parallel_sorted ts = sorted longer_first (keep_if (λ s. s.parallelizable) ts)

abbrev pub serial_sorted : List StageTiming → List StageTiming
serial_sorted ts = sorted by_name (keep_if (λ s. not s.parallelizable) ts)

-- the group of the parallel stages, if there are any
abbrev pub parallel_group : List StageTiming → List (List String)
parallel_group [] = []
parallel_group (s ∷ ss) = map (λ x. x.stage) (s ∷ ss) ∷ []

-- `max(durations, default=0)`
unfoldable pub longest : List StageTiming → ℤ
longest [] = pos 0
longest (s ∷ []) = s.duration_seconds
longest (s ∷ t ∷ ss) = max_ℤ s.duration_seconds (longest (t ∷ ss))

unfoldable pub total : List StageTiming → ℤ
total [] = pos 0
total (s ∷ ss) = s.duration_seconds +ℤ total ss

unfoldable pub plan : (ℤ → ℤ) → List StageTiming → OptimizationPlan
unfolding longest total
plan stretched ts =
    let predicted = longest (parallel_sorted ts) +ℤ total (serial_sorted ts) in
    record {
      ordered_groups =
          parallel_group (parallel_sorted ts) ++ map (λ s. s.stage ∷ []) (serial_sorted ts);
      predicted_duration_seconds = predicted;
      recommended_timeout_seconds = stretched predicted +ℤ pos 30;
    }

unfoldable pub optimize : (ℤ → ℤ) → List StageTiming → Outcome OptimizationPlan
unfolding plan validate_stages
optimize stretched [] = raised (value_error "timings are required")
optimize stretched (t ∷ ts) = do validate_stages [] (t ∷ ts); ok (plan stretched (t ∷ ts))
