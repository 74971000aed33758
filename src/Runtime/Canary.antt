-- ===== src/Runtime/Canary.antt =====
-- enterprise_maturity/v3_runtime/deployment_pipeline.py, `MultiRegionCanaryManager`. Floats are a
-- parameter: the code subtracts them, compares them and prints them with four decimals.
pub mod Laws
use zlttbots.Prelude.{
  ℕ, String, Bool, not, ◌&&◌, ◌||◌, List, [], ◌∷◌, ◌++◌, Outcome, ok, raised, value_error, ◌>>=◌,
  ◌>>◌, raise_if, truthy, concat, text_leb, if◌then◌else◌,
}
use zlttbots.Prelude.Int.{ℤ, pos, ◌-ℤ◌, ltb_ℤ, leb_ℤ, show_ℤ}
use zlttbots.Prelude.Sorting.{sorted}

-- What the code uses of Python's floats.
pub record Floats : Type 1 where
  pub Float : Type 0
  pub zero_float : Float
  pub minus : Float → Float → Float
  pub less : Float → Float → Bool
  pub less_eq : Float → Float → Bool
  -- f"{x:.4f}"
  pub show_4 : Float → String

-- `"; ".join(texts)`
unfoldable pub join_semicolon : List String → String
join_semicolon [] = ""
join_semicolon (t ∷ []) = t
join_semicolon (t ∷ u ∷ us) = concat (t ∷ "; " ∷ join_semicolon (u ∷ us) ∷ [])

pub record CanaryAssessment : Type 0 where
  pub decision : String
  pub safe_regions : List String
  pub rollback_regions : List String
  pub reason : String

module _ (fl : Floats) where
  open fl use {Float, zero_float, minus, less, less_eq, show_4}

  pub record RegionalMetric : Type 0 where
    pub region : String
    pub baseline_error_rate : Float
    pub canary_error_rate : Float
    pub baseline_latency_ms : ℤ
    pub canary_latency_ms : ℤ

  pub record CanaryManager : Type 0 where
    pub max_error_delta : Float
    pub max_latency_delta_ms : ℤ

  -- the lists that `assess` builds up
  pub record Tally : Type 0 where
    pub safe : List String
    pub rollback : List String
    pub reasons : List String

module _ {fl : Floats} where
  -- `MultiRegionCanaryManager(max_error_delta, max_latency_delta_ms)`
  pub canary_manager : fl.Float → ℤ → Outcome (CanaryManager fl)
  canary_manager error latency = do
    raise_if (fl.less_eq error fl.zero_float) (value_error "max_error_delta must be positive")
    raise_if (leb_ℤ latency (pos 0)) (value_error "max_latency_delta_ms must be positive")
    ok (record { max_error_delta = error; max_latency_delta_ms = latency })

  unfoldable pub validate_metric : RegionalMetric fl → Outcome (Unit {0})
  validate_metric m = do
    raise_if (not (truthy m.region)) (value_error "region must be set")
    raise_if
        (fl.less m.baseline_error_rate fl.zero_float || fl.less m.canary_error_rate fl.zero_float)
        (value_error "error rates cannot be negative")
    raise_if (leb_ℤ m.baseline_latency_ms (pos 0) || leb_ℤ m.canary_latency_ms (pos 0))
        (value_error "latency must be positive")
    ok tt

  unfoldable pub error_delta : RegionalMetric fl → fl.Float
  error_delta m = fl.minus m.canary_error_rate m.baseline_error_rate

  unfoldable pub latency_delta : RegionalMetric fl → ℤ
  latency_delta m = m.canary_latency_ms -ℤ m.baseline_latency_ms

  -- the test for a region that has to be rolled back
  unfoldable pub breaches : CanaryManager fl → RegionalMetric fl → Bool
  breaches c m =
      fl.less c.max_error_delta (error_delta m) || ltb_ℤ c.max_latency_delta_ms (latency_delta m)

  unfoldable pub reason_for : RegionalMetric fl → String
  reason_for m = concat (
      m.region
      ∷ ": error_delta="
      ∷ fl.show_4 (error_delta m)
      ∷ ", latency_delta_ms="
      ∷ show_ℤ (latency_delta m)
      ∷ [])

  -- one round of the loop, behind the validation
  unfoldable pub count_region : CanaryManager fl → RegionalMetric fl → Tally fl → Tally fl
  count_region c m t =
      if breaches c m
      then record t {
        rollback = t.rollback ++ m.region ∷ [];
        reasons = t.reasons ++ reason_for m ∷ [];
      }
      else record t { safe = t.safe ++ m.region ∷ [] }

  unfoldable pub assess_loop :
      CanaryManager fl → List (RegionalMetric fl) → Tally fl → Outcome (Tally fl)
  assess_loop c [] t = ok t
  assess_loop c (m ∷ ms) t = do validate_metric m; assess_loop c ms (count_region c m t)

  unfoldable pub conclude : Tally fl → List String → CanaryAssessment
  conclude t [] = record {
    decision = "promote";
    safe_regions = sorted text_leb t.safe;
    rollback_regions = [];
    reason = "All regions are within canary thresholds";
  }
  conclude t (r ∷ rs) = record {
    decision = "rollback";
    safe_regions = sorted text_leb t.safe;
    rollback_regions = sorted text_leb (r ∷ rs);
    reason = join_semicolon (sorted text_leb t.reasons);
  }

  unfoldable pub assess : CanaryManager fl → List (RegionalMetric fl) → Outcome CanaryAssessment
  unfolding assess_loop conclude
  assess c [] = raised (value_error "at least one region metric is required")
  assess c (m ∷ ms) = do
    t ← assess_loop c (m ∷ ms) (record { safe = []; rollback = []; reasons = [] })
    ok (conclude t t.rollback)
