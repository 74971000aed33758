-- ===== src/Maturity/Scaling.antt =====
-- AutoscalingAdvisor of enterprise_maturity/performance.py. The two tests of the processor load are
-- those of a float, which are parameters.
pub mod Laws
use zlttbots.Prelude.{ℕ, Bool, true, false, ◌&&◌, String, if◌then◌else◌}
use zlttbots.Prelude.Int.{ℤ, pos, ltb_ℤ, leb_ℤ, min_ℤ, max_ℤ, ◌+ℤ◌, ◌-ℤ◌}

-- cpu_utilization, by what the code asks of it: whether it is above 0.75, and whether it is below 0.30
pub record WorkloadMetrics : Type 0 where
  pub queue_depth : ℤ
  pub throughput_per_minute : ℤ
  pub cpu_high : Bool
  pub cpu_low : Bool

pub record ScalingRecommendation : Type 0 where
  pub desired_replicas : ℤ
  pub reason : String

pub record AutoscalingAdvisor : Type 0 where
  pub min_replicas : ℤ
  pub max_replicas : ℤ

abbrev pub default_advisor : AutoscalingAdvisor
default_advisor = record { min_replicas = pos 2; max_replicas = pos 20 }

unfoldable pub recommend : ℤ → WorkloadMetrics → AutoscalingAdvisor → ScalingRecommendation
recommend current m a =
    if ltb_ℤ (m.throughput_per_minute +ℤ m.throughput_per_minute) m.queue_depth
    then record {
      desired_replicas = min_ℤ a.max_replicas (current +ℤ pos 2);
      reason = "queue backlog";
    }
    else if m.cpu_high
    then record { desired_replicas = min_ℤ a.max_replicas (current +ℤ pos 1); reason = "high CPU" }
    else if m.cpu_low && leb_ℤ m.queue_depth (pos 0) && leb_ℤ (pos 0) m.queue_depth
    then record {
      desired_replicas = max_ℤ a.min_replicas (current -ℤ pos 1);
      reason = "idle capacity";
    }
    else record { desired_replicas = current; reason = "steady state" }
