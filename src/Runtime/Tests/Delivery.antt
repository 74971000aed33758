-- ===== src/Runtime/Tests/Delivery.antt =====
-- The canary verdict at concrete inputs.
use mathlib.Core.List.{Perm}
use zlttbots.Prelude.{
  ℕ, ◌-◌, ◌≡◌, refl, List, [], ◌∷◌, ◌++◌, map, any_of, true, ok, ltb, leb, show, if◌then◌else◌,
  text_leb,
}
use zlttbots.Prelude.Int.{pos, ◌-ℤ◌}
use zlttbots.Prelude.Sorting.{sorted}
use zlttbots.Runtime.Canary.{
  Floats, RegionalMetric, CanaryManager, CanaryAssessment, validate_metric, breaches, assess,
  error_delta, latency_delta,
}
use zlttbots.Runtime.Canary.Laws.{safe_ones, breaching_ones, IsSound, assess_decides}

-- Rates in thousandths stand for floats; a difference stops at zero.
abbrev thousandths : Floats
thousandths = record {
  Float = ℕ;
  zero_float = 0;
  minus = λ a b. a - b;
  less = ltb;
  less_eq = leb;
  show_4 = show;
}

abbrev manager : CanaryManager thousandths
manager = record { max_error_delta = 20; max_latency_delta_ms = pos 50 }

abbrev metrics : List (RegionalMetric thousandths)
metrics =
    record {
      region = "us";
      baseline_error_rate = 10;
      canary_error_rate = 40;
      baseline_latency_ms = pos 100;
      canary_latency_ms = pos 110;
    }
    ∷ record {
      region = "eu";
      baseline_error_rate = 10;
      canary_error_rate = 12;
      baseline_latency_ms = pos 100;
      canary_latency_ms = pos 110;
    }
    ∷ []

metrics-IsSound : IsSound manager metrics
unfolding validate_metric
metrics-IsSound = (refl, (refl, tt))

assess_decides_example :
    (a : CanaryAssessment) × (assess manager metrics ≡ ok a)
    × (a.decision ≡ (if any_of (breaches manager) metrics then "rollback" else "promote"))
    × (a.safe_regions ≡ sorted text_leb (safe_ones manager metrics))
    × (a.rollback_regions ≡ sorted text_leb (breaching_ones manager metrics))
    × Perm (a.safe_regions ++ a.rollback_regions) (map (λ m. m.region) metrics)
assess_decides_example = assess_decides manager metrics (λ e. cc) metrics-IsSound

breaches_runs : any_of (breaches manager) metrics ≡ true
unfolding breaches error_delta latency_delta ◌-ℤ◌
breaches_runs = refl
