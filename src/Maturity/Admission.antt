-- ===== src/Maturity/Admission.antt =====
-- enterprise_maturity/performance.py, `QueueAdmissionController`: two lanes with a limit each.
pub mod Laws
use zlttbots.Prelude.{ℕ, ◌+◌, ◌-◌, Bool, true, false, String, str_eq, if◌then◌else◌}
use zlttbots.Prelude.Int.{ℤ, pos, leb_ℤ}

-- `_inflight` has the two keys "critical" and "best_effort", and its counts are not negative.
pub record QueueAdmissionController : Type 0 where
  pub critical_limit : ℤ
  pub best_effort_limit : ℤ
  pub critical : ℕ
  pub best_effort : ℕ

-- `QueueAdmissionController(critical_limit, best_effort_limit)`
abbrev pub admission_controller : ℤ → ℤ → QueueAdmissionController
admission_controller critical_limit best_effort_limit = record {
  critical_limit = critical_limit;
  best_effort_limit = best_effort_limit;
  critical = 0;
  best_effort = 0;
}

unfoldable pub admit : String → QueueAdmissionController → Bool × QueueAdmissionController
admit priority c =
    if str_eq priority "critical"
    then (if leb_ℤ c.critical_limit (pos c.critical)
        then (false, c)
        else (true, record c { critical = c.critical + 1 }))
    else (if leb_ℤ c.best_effort_limit (pos c.best_effort)
        then (false, c)
        else (true, record c { best_effort = c.best_effort + 1 }))

-- `max(0, n - 1)` is n - 1, since subtraction stops at 0.
unfoldable pub complete : String → QueueAdmissionController → QueueAdmissionController
complete priority c =
    if str_eq priority "critical"
    then record c { critical = c.critical - 1 }
    else record c { best_effort = c.best_effort - 1 }
