-- ===== src/Runtime/Autoscaling.antt =====
-- enterprise_maturity/v3_runtime/autoscaling.py: the number of workers follows the backlog.
pub mod Laws
use zlttbots.Prelude.{String, if◌then◌else◌, Outcome, ok, raised, value_error}
use zlttbots.Prelude.Int.{ℤ, pos, ◌+ℤ◌, ◌-ℤ◌, leb_ℤ, min_ℤ, max_ℤ, floor_div, pos_part}

pub record WorkerPool : Type 0 where
  pub name : String
  pub min_workers : ℤ
  pub max_workers : ℤ
  pub target_backlog_per_worker : ℤ
  pub current_workers : ℤ

-- `AutoScaler.reconcile`. The divisor is positive where the division is made.
unfoldable pub reconcile : ℤ → WorkerPool → Outcome ℤ × WorkerPool
reconcile backlog pool =
    if leb_ℤ pool.target_backlog_per_worker (pos 0)
    then (raised (value_error "target_backlog_per_worker must be > 0"), pool)
    else let target = pool.target_backlog_per_worker in
      let wanted = floor_div (backlog +ℤ target -ℤ pos 1) (pos_part target) in
      let desired = min_ℤ (max_ℤ pool.min_workers wanted) pool.max_workers in
      (ok desired, record pool { current_workers = desired })
