-- ===== src/Maturity/Tests/Helpers.antt =====
-- Advice and releases at concrete inputs.
use zlttbots.Prelude.{ℕ, true, false, List, [], ◌∷◌, arith, Bool}
use zlttbots.Prelude.Int.{pos}
use zlttbots.Maturity.Scaling.{WorkloadMetrics, default_advisor, recommend}
use zlttbots.Maturity.Scaling.Laws.{Within, recommend-InBounds}
use zlttbots.Maturity.Operations.{ApiVersion}

-- a backlog
abbrev load : WorkloadMetrics
load = record {
  queue_depth = pos 90;
  throughput_per_minute = pos 10;
  cpu_high = false;
  cpu_low = false;
}

recommend-InBounds_example :
    Within default_advisor (pos 19) (recommend (pos 19) load default_advisor).desired_replicas
recommend-InBounds_example =
    recommend-InBounds default_advisor (pos 19) (omega arith) (omega arith) load

abbrev version : ℕ → ApiVersion
version major = record { major = pos major; minor = pos 0; patch = pos 0 }

abbrev chain : List (ApiVersion × Bool)
chain = (version 2, true) ∷ (version 2, false) ∷ (version 4, true) ∷ []
