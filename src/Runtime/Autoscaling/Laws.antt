-- ===== src/Runtime/Autoscaling/Laws.antt =====
-- The autoscaler stays within the limits of its pool, and gives the fewest workers that carry the
-- backlog.
use native.Mathlib.Decide.{dec_le}
use native.Mathlib.Nat.{div-add-mod', mod-lt, mul-le-mul_right}
use zlttbots.Prelude.{
  zero, min, max, ℕ, suc, ◌+◌, ◌-◌, ◌*◌, ◌/◌, ◌≤◌, ◌<◌, ◌≡◌, ◌⊎◌, inl, inr, arith, ok, String, min,
  max,
}
use zlttbots.Prelude.Int.{ℤ, pos, ◌+ℤ◌, ◌-ℤ◌, ◌≤ℤ◌}
use zlttbots.Runtime.Autoscaling.{WorkerPool, reconcile}

-- Whatever the backlog, with a positive target and limits that are in order the pool gets a size
-- within its limits, which is the size that is returned, and keeps its limits and its target.
pub reconcile_within_limits :
    (pool : WorkerPool) (backlog : ℤ)
    → pos 1 ≤ℤ pool.target_backlog_per_worker
    → pool.min_workers ≤ℤ pool.max_workers
    → let (result, after) = reconcile backlog pool in
      (result ≡ ok after.current_workers)
      × (pool.min_workers ≤ℤ after.current_workers)
      × (after.current_workers ≤ℤ pool.max_workers)
      × (after.min_workers ≡ pool.min_workers)
      × (after.max_workers ≡ pool.max_workers)
      × (after.target_backlog_per_worker ≡ pool.target_backlog_per_worker)
unfolding reconcile
reconcile_within_limits pool backlog t h = ground arith

-- A pool with numbers that are not negative.
abbrev pub pool_of : String → ℕ → ℕ → ℕ → ℤ → WorkerPool
pool_of name lo hi target current = record {
  name = name;
  min_workers = pos lo;
  max_workers = pos hi;
  target_backlog_per_worker = pos target;
  current_workers = current;
}

ceil_covers : (b t : ℕ) → 0 < t → b ≤ (b + t - 1) / t * t
ceil_covers b t h = omega (arith, div-add-mod' (b + t - 1) t, mod-lt (b + t - 1) h)

ceil_tight : (c b t : ℕ) → c * t ≤ b + t - 1 → 0 < c → 0 < t → (c - 1) * t < b
ceil_tight zero b t e h p = elim h [ ]
ceil_tight (suc c) b t e h p = let prev : suc c - 1 ≡ c = omega arith in rw prev (omega arith)

ceil_least : (b t : ℕ) → 0 < (b + t - 1) / t → 0 < t → ((b + t - 1) / t - 1) * t < b
ceil_least b t h p =
    ceil_tight ((b + t - 1) / t) b t (omega (arith, div-add-mod' (b + t - 1) t)) h p

-- More workers carry more, and fewer carry less.
carry_mono : (m n t b : ℕ) → b ≤ m * t → m ≤ n → b ≤ n * t
carry_mono m n t b h le = omega (arith, mul-le-mul_right t le)

clip_covers : (lo hi c t b : ℕ) → b ≤ c * t → (b ≤ min (max lo c) hi * t) ⊎ (min (max lo c) hi ≡ hi)
clip_covers lo hi c t b h = elim (dec_le hi (max lo c)) [
  | yes full ↦ inr (omega arith)
  | no room ↦ inl (carry_mono c (min (max lo c) hi) t b h (omega arith))
]

clip_tight :
    (lo hi c t b : ℕ)
    → lo ≤ hi
    → (0 < c → (c - 1) * t < b)
    → (min (max lo c) hi ≡ lo) ⊎ ((min (max lo c) hi - 1) * t < b)
clip_tight lo hi c t b h least = elim (dec_le c lo) [
  | yes few ↦ inl (omega arith)
  | no many ↦
      let n = min (max lo c) hi in
      let fewer : n - 1 ≤ c - 1 = omega arith in
      inr (omega (arith, least (omega arith), mul-le-mul_right t fewer))
]

-- The size chosen for a backlog carries all of it or is the maximum, and one worker fewer would
-- not carry it, unless the size is the minimum.
pub reconcile_optimal :
    (name : String) (lo hi target backlog : ℕ) (current : ℤ)
    → 0 < target
    → lo ≤ hi
    → (n : ℕ) × ((reconcile (pos backlog) (pool_of name lo hi target current)).0 ≡ ok (pos n))
      × ((backlog ≤ n * target) ⊎ (n ≡ hi))
      × ((n ≡ lo) ⊎ ((n - 1) * target < backlog))
unfolding reconcile ◌+ℤ◌ ◌-ℤ◌
reconcile_optimal name lo hi target backlog current t h =
    let wanted = (backlog + target - 1) / target in
    (
      min (max lo wanted) hi,
      ground arith,
      clip_covers lo hi wanted target backlog (ceil_covers backlog target t),
      clip_tight lo hi wanted target backlog h (λ p. ceil_least backlog target p t),
    )
