-- ===== src/Runtime/Gpu.antt =====
-- enterprise_maturity/v3_runtime/gpu_scheduler.py: render jobs go to the node that they fill best.
-- A node is an object that the scheduler changes in place: its identity is its place in `nodes`.
pub mod Choice
pub mod Laws
use zlttbots.Prelude.{
  ℕ, String, Bool, Option, List, [], ◌∷◌, set, enumerate, keep_if, str_eq, concat, if◌then◌else◌,
  Outcome, ok, raised, value_error, lookup_error, key_error,
}
use zlttbots.Prelude.Int.{ℤ, pos, ◌+ℤ◌, ◌-ℤ◌, leb_ℤ, ltb_ℤ, max_ℤ, show_ℤ}

pub record RenderJob : Type 0 where
  pub job_id : String
  pub gpu_memory_gb : ℤ
  pub duration_s : ℤ

pub record GpuNode : Type 0 where
  pub name : String
  pub total_memory_gb : ℤ
  pub used_memory_gb : ℤ

unfoldable pub available_gb : GpuNode → ℤ
available_gb n = n.total_memory_gb -ℤ n.used_memory_gb

-- `GPUScheduler.nodes`
abbrev pub GpuScheduler : Type 0
GpuScheduler = List GpuNode

-- `GPUScheduler(nodes)`
pub scheduler : List GpuNode → Outcome GpuScheduler
scheduler [] = raised (value_error "At least one GPU node is required")
scheduler (n ∷ ns) = ok (n ∷ ns)

abbrev pub fits : ℤ → GpuNode → Bool
fits memory n = leb_ℤ memory (available_gb n)

-- the nodes that have room, with their places
abbrev pub candidates : ℤ → List GpuNode → List (ℕ × GpuNode)
candidates memory nodes = keep_if (λ c. fits memory c.1) (enumerate 0 nodes)

-- `min(candidates, key=lambda n: n.available_gb)`, behind its first item: a later one has to be less
unfoldable pub least : ℕ × GpuNode → List (ℕ × GpuNode) → ℕ × GpuNode
least best [] = best
least best (c ∷ cs) = least (if ltb_ℤ (available_gb c.1) (available_gb best.1) then c else best) cs

-- `chosen.used_memory_gb += memory`
abbrev pub occupied : ℤ → GpuNode → GpuNode
occupied memory n = record n { used_memory_gb = n.used_memory_gb +ℤ memory }

unfoldable pub place_on :
    RenderJob → List (ℕ × GpuNode) → GpuScheduler → Outcome String × GpuScheduler
place_on job [] nodes = (
  raised (
      lookup_error (
        concat
          ("No GPU node can satisfy " ∷ show_ℤ job.gpu_memory_gb ∷ "GB for " ∷ job.job_id ∷ []))),
  nodes,
)
place_on job (c ∷ cs) nodes =
    let (place, chosen) = least c cs in
    (ok chosen.name, set nodes place (occupied job.gpu_memory_gb chosen))

unfoldable pub schedule : RenderJob → GpuScheduler → Outcome String × GpuScheduler
unfolding place_on
schedule job nodes = place_on job (candidates job.gpu_memory_gb nodes) nodes

-- `node.used_memory_gb = max(0, node.used_memory_gb - memory)`
abbrev pub released : ℤ → GpuNode → GpuNode
released memory n = record n { used_memory_gb = max_ℤ (pos 0) (n.used_memory_gb -ℤ memory) }

unfoldable pub release : String → ℤ → GpuScheduler → Outcome (Unit {0}) × GpuScheduler
release node_name memory [] =
    (raised (key_error (concat ("Unknown GPU node: " ∷ node_name ∷ []))), [])
release node_name memory (n ∷ ns) =
    let (result, rest) = release node_name memory ns in
    if str_eq n.name node_name then (ok tt, released memory n ∷ ns) else (result, n ∷ rest)
