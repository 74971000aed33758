-- ===== src/Runtime/Gpu/Laws.antt =====
-- What the render scheduler promises: a node is never overcommitted, the job goes to the fullest node
-- that has room, and a release undoes a schedule.
use zlttbots.Prelude.{
  ℕ, zero, suc, ◌+◌, ◌≡◌, refl, true, false, String, List, [], ◌∷◌, All, some, get_elem?, enumerate,
  set, arith, Bool-cases, inl, inr, str_eq, eq_iff, ok, raised, All-set, All_enumerate,
  All-keep_if_sub, enumerate-get_elem?, All-keep_if, subst, Error, sym, All_get_elem?, keep_if,
}
use zlttbots.Prelude.Int.{ℤ, pos, ◌+ℤ◌, ◌-ℤ◌, ◌≤ℤ◌, +ℤ_parts, -ℤ_parts, -ℤ_parts}
use zlttbots.Runtime.Gpu.{
  RenderJob, GpuNode, GpuScheduler, available_gb, least, fits, candidates, occupied, place_on,
  schedule, release, released,
}
use zlttbots.Runtime.Gpu.Choice.{least_among, least_minimal}

-- The memory in use is neither negative nor more than there is.
abbrev pub InBounds : GpuNode → Type 0
InBounds n = (pos 0 ≤ℤ n.used_memory_gb) × (n.used_memory_gb ≤ℤ n.total_memory_gb)

-- No two nodes have the same name.
abbrev pub IsNamed : GpuScheduler → Type 0
IsNamed [] = Unit
IsNamed (n ∷ ns) = All (λ m. str_eq n.name m.name ≡ false) ns × IsNamed ns

-- What a choice says: the node at a place has room for the job, and no node with room has less.
abbrev pub BestFit : ℤ → GpuScheduler → ℕ → GpuNode → Type 0
BestFit memory nodes place n =
    (get_elem? nodes place ≡ some n)
    × (fits memory n ≡ true)
    × ((j : ℕ) (m : GpuNode)
        → get_elem? nodes j ≡ some m
        → fits memory m ≡ true
        → available_gb n ≤ℤ available_gb m)

-- a candidate's number is its place
abbrev Stands : GpuScheduler → ℕ × GpuNode → Type 0
Stands nodes c = (j : ℕ) × (c.0 ≡ j + 0) × (get_elem? nodes j ≡ some c.1)

chosen-BestFit :
    (memory : ℤ) (nodes : GpuScheduler) (c : ℕ × GpuNode) (cs : List (ℕ × GpuNode))
    → candidates memory nodes ≡ c ∷ cs
    → BestFit memory nodes (least c cs).0 (least c cs).1
chosen-BestFit memory nodes c cs e =
    let stand = subst (All (Stands nodes)) e (
      All-keep_if_sub (Stands nodes) (λ d. fits memory d.1) (enumerate 0 nodes)
        (enumerate-get_elem? 0 nodes)) in
    let room =
      subst (All (λ d. fits memory d.1 ≡ true)) e
        (All-keep_if (λ d. fits memory d.1) (enumerate 0 nodes)) in
    let (j, here, found) = least_among (Stands nodes) c cs stand.0 stand.1 in
    let place : (least c cs).0 ≡ j = omega arith in
    (
      rw place found,
      least_among (λ d. fits memory d.1 ≡ true) c cs room.0 room.1,
      λ k m g f.
          All_enumerate (λ d. available_gb (least c cs).1 ≤ℤ available_gb d.1)
            (λ d. fits memory d.1) 0 k k nodes m
            (subst (All (λ d. available_gb (least c cs).1 ≤ℤ available_gb d.1)) (sym e)
              (least_minimal c cs))
            g (omega arith) f,
    )

-- A job is placed on a node that has room for it, the one that is left with least room of all that
-- have room; only that node changes, and its memory in use grows by the job's.
pub schedule-BestFit :
    (job : RenderJob) (nodes : GpuScheduler) (name : String)
    → (schedule job nodes).0 ≡ ok name
    → (place : ℕ) × (n : GpuNode) × BestFit job.gpu_memory_gb nodes place n
      × (name ≡ n.name)
      × ((schedule job nodes).1 ≡ set nodes place (occupied job.gpu_memory_gb n))
unfolding schedule
schedule-BestFit job nodes name = go (candidates job.gpu_memory_gb nodes) refl
  where
    go :
        (cs : List (ℕ × GpuNode))
        → candidates job.gpu_memory_gb nodes ≡ cs
        → (place_on job cs nodes).0 ≡ ok name
        → (place : ℕ) × (n : GpuNode) × BestFit job.gpu_memory_gb nodes place n
          × (name ≡ n.name)
          × ((place_on job cs nodes).1 ≡ set nodes place (occupied job.gpu_memory_gb n))
    go [] e h = cc
    go (c ∷ cs) e h =
        ((least c cs).0, (least c cs).1, chosen-BestFit job.gpu_memory_gb nodes c cs e, cc, refl)

occupied-InBounds :
    (memory : ℤ) (n : GpuNode)
    → pos 0 ≤ℤ memory
    → fits memory n ≡ true
    → InBounds n
    → InBounds (occupied memory n)
unfolding available_gb
occupied-InBounds memory n size room (low, high) =
    grind (arith, +ℤ_parts n.used_memory_gb memory, -ℤ_parts n.total_memory_gb n.used_memory_gb)

released-InBounds :
    (memory : ℤ) (n : GpuNode) → pos 0 ≤ℤ memory → InBounds n → InBounds (released memory n)
released-InBounds memory n size (low, high) = grind (arith, -ℤ_parts n.used_memory_gb memory)

-- No node is overcommitted: if every node's memory in use lies between zero and its total, so it does
-- after any job whose size is not negative, placed or refused.
pub schedule-InBounds :
    (job : RenderJob) (nodes : GpuScheduler)
    → pos 0 ≤ℤ job.gpu_memory_gb
    → All InBounds nodes
    → All InBounds (schedule job nodes).1
unfolding schedule place_on
schedule-InBounds job nodes size h = go (candidates job.gpu_memory_gb nodes) refl
  where
    go :
        (cs : List (ℕ × GpuNode))
        → candidates job.gpu_memory_gb nodes ≡ cs
        → All InBounds (place_on job cs nodes).1
    go [] e = h
    go (c ∷ cs) e =
        let (found, room, _) = chosen-BestFit job.gpu_memory_gb nodes c cs e in
        All-set InBounds nodes (least c cs).0 _ h (
          occupied-InBounds job.gpu_memory_gb (least c cs).1 size room
            (All_get_elem? InBounds nodes (least c cs).0 (least c cs).1 h found))

-- A release keeps the bounds as well, whatever its name; its size is not negative.
pub release-InBounds :
    (name : String) (memory : ℤ) (nodes : GpuScheduler)
    → pos 0 ≤ℤ memory
    → All InBounds nodes
    → All InBounds (release name memory nodes).1
unfolding release
release-InBounds name memory [] size h = tt
release-InBounds name memory (n ∷ ns) size h = elim (Bool-cases (str_eq n.name name)) [
  | inl same ↦ rw same (released-InBounds memory n size h.0, h.1)
  | inr other ↦ rw other (h.0, release-InBounds name memory ns size h.1)
]

none_fit :
    (memory : ℤ) (k : ℕ) (nodes : GpuScheduler)
    → keep_if (λ c. fits memory c.1) (enumerate k nodes) ≡ []
    → All (λ n. fits memory n ≡ false) nodes
none_fit memory k [] e = tt
none_fit memory k (n ∷ ns) e = elim (Bool-cases (fits memory n)) [
  | inl room ↦ absurd (cc (room))
  | inr full ↦ (full, none_fit memory (suc k) ns (rw full at e))
]

-- A job is refused only when no node has room for it, and then nothing changes.
pub schedule_refused :
    (job : RenderJob) (nodes : GpuScheduler) (e : Error)
    → (schedule job nodes).0 ≡ raised e
    → ((schedule job nodes).1 ≡ nodes) × All (λ n. fits job.gpu_memory_gb n ≡ false) nodes
unfolding schedule place_on
schedule_refused job nodes err = go (candidates job.gpu_memory_gb nodes) refl
  where
    go :
        (cs : List (ℕ × GpuNode))
        → candidates job.gpu_memory_gb nodes ≡ cs
        → (place_on job cs nodes).0 ≡ raised err
        → ((place_on job cs nodes).1 ≡ nodes) × All (λ n. fits job.gpu_memory_gb n ≡ false) nodes
    go [] e h = (refl, none_fit job.gpu_memory_gb 0 nodes e)
    go (c ∷ cs) e h = cc

released-occupied :
    (memory : ℤ) (n : GpuNode) → pos 0 ≤ℤ n.used_memory_gb → released memory (occupied memory n) ≡ n
unfolding ◌+ℤ◌ ◌-ℤ◌
released-occupied memory n low = ground arith

named_apart :
    (n m : GpuNode) (ns : GpuScheduler) (k : ℕ)
    → All (λ m. str_eq n.name m.name ≡ false) ns
    → get_elem? ns k ≡ some m
    → str_eq n.name m.name ≡ false
named_apart n m ns k h e = All_get_elem? (λ m. str_eq n.name m.name ≡ false) ns k m h e

release-set-occupied :
    (memory : ℤ) (place : ℕ) (nodes : GpuScheduler) (n : GpuNode)
    → IsNamed nodes
    → pos 0 ≤ℤ n.used_memory_gb
    → get_elem? nodes place ≡ some n
    → release n.name memory (set nodes place (occupied memory n)) ≡ (ok tt, nodes)
unfolding release
release-set-occupied memory place [] n named low e = cc
release-set-occupied memory zero (m ∷ ms) n named low e =
    let same : m ≡ n = cc in
    rw ((eq_iff n.name n.name).1 refl) (rw (released-occupied memory n low, same))
release-set-occupied memory (suc k) (m ∷ ms) n named low e =
    rw (named_apart m n ms k named.0 e, release-set-occupied memory k ms n named.1 low e)

-- Releasing what was scheduled, by the name that was returned, brings every node back to what it was:
-- if the names differ and no memory in use is negative.
pub release-schedule :
    (job : RenderJob) (nodes : GpuScheduler) (name : String)
    → IsNamed nodes
    → All InBounds nodes
    → (schedule job nodes).0 ≡ ok name
    → release name job.gpu_memory_gb (schedule job nodes).1 ≡ (ok tt, nodes)
release-schedule job nodes name named h done =
    let (place, n, (found, room, less), called, changed) = schedule-BestFit job nodes name done in
    rw (called, changed)
      (release-set-occupied job.gpu_memory_gb place nodes n named
        (All_get_elem? InBounds nodes place n h found).0 found)
