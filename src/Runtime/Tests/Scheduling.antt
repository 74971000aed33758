-- ===== src/Runtime/Tests/Scheduling.antt =====
-- The autoscaler and the render scheduler at concrete inputs.
use zlttbots.Prelude.{ℕ, ◌-◌, ◌*◌, ◌≤◌, ◌<◌, ◌≡◌, refl, ◌⊎◌, [], ◌∷◌, set, arith, ok}
use zlttbots.Prelude.Int.{pos, ◌-ℤ◌, ◌+ℤ◌}
use zlttbots.Runtime.Autoscaling.{reconcile}
use zlttbots.Runtime.Autoscaling.Laws.{pool_of, reconcile_optimal}
use zlttbots.Runtime.Gpu.{RenderJob, GpuNode, GpuScheduler, schedule, occupied, least, available_gb}
use zlttbots.Runtime.Gpu.Laws.{BestFit, schedule-BestFit}

reconcile_optimal_example :
    (n : ℕ) × ((reconcile (pos 17) (pool_of "crawler-worker" 1 100 8 (pos 3))).0 ≡ ok (pos n))
    × ((17 ≤ n * 8) ⊎ (n ≡ 100))
    × ((n ≡ 1) ⊎ ((n - 1) * 8 < 17))
reconcile_optimal_example =
    reconcile_optimal "crawler-worker" 1 100 8 17 (pos 3) (omega arith) (omega arith)

reconcile_runs : (reconcile (pos 17) (pool_of "crawler-worker" 1 100 8 (pos 3))).0 ≡ ok (pos 3)
unfolding reconcile ◌+ℤ◌ ◌-ℤ◌
reconcile_runs = refl

abbrev render : RenderJob
render = record { job_id = "r1"; gpu_memory_gb = pos 8; duration_s = pos 60 }

abbrev nodes : GpuScheduler
nodes =
    record { name = "gpu-l4-1"; total_memory_gb = pos 48; used_memory_gb = pos 0 }
    ∷ record { name = "gpu-a10-1"; total_memory_gb = pos 24; used_memory_gb = pos 4 }
    ∷ record { name = "gpu-a10-2"; total_memory_gb = pos 24; used_memory_gb = pos 20 }
    ∷ []

-- The last node has too little room, and the second has less than the first.
schedule_runs : (schedule render nodes).0 ≡ ok "gpu-a10-1"
unfolding schedule least available_gb ◌-ℤ◌
schedule_runs = refl

schedule-BestFit_example :
    (place : ℕ) × (n : GpuNode) × BestFit (pos 8) nodes place n
    × ("gpu-a10-1" ≡ n.name)
    × ((schedule render nodes).1 ≡ set nodes place (occupied (pos 8) n))
schedule-BestFit_example = schedule-BestFit render nodes "gpu-a10-1" schedule_runs
