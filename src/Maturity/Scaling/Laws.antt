-- ===== src/Maturity/Scaling/Laws.antt =====
-- The advice stays within the bounds, a step at a time.
use zlttbots.Prelude.{ℕ, ◌+◌, ◌≤◌, ◌&&◌, arith, Bool-cases, inl, inr}
use zlttbots.Prelude.Int.{
  ℤ, pos, pos_part, neg_part, ltb_ℤ, leb_ℤ, min_ℤ, max_ℤ, ◌+ℤ◌, ◌-ℤ◌, ◌≤ℤ◌, +ℤ_parts, -ℤ_parts,
}
use zlttbots.Maturity.Scaling.{WorkloadMetrics, AutoscalingAdvisor, recommend}

-- a step from a number of replicas to another stays within these
abbrev pub Within : AutoscalingAdvisor → ℤ → ℤ → Type 0
Within a current desired =
    (a.min_replicas ≤ℤ desired)
    × (desired ≤ℤ a.max_replicas)
    × (desired ≤ℤ current +ℤ pos 2)
    × (current ≤ℤ desired +ℤ pos 1)

module _ (a : AutoscalingAdvisor) (current : ℤ) (low : a.min_replicas ≤ℤ current)
    (high : current ≤ℤ a.max_replicas) where
  stay :
      (desired : ℤ)
      → a.min_replicas ≤ℤ desired
      → desired ≤ℤ a.max_replicas
      → pos_part desired + neg_part current ≤ pos_part current + neg_part desired + 2
      → pos_part current + neg_part desired ≤ pos_part desired + neg_part current + 1
      → Within a current desired
  stay desired p q r s =
      let up = +ℤ_parts current (pos 2) in
      let back = +ℤ_parts desired (pos 1) in (p, q, omega arith, omega arith)

  up-Within : (k : ℕ) → k ≤ 2 → Within a current (min_ℤ a.max_replicas (current +ℤ pos k))
  up-Within k few =
      let sum = +ℤ_parts current (pos k) in
      elim (Bool-cases (ltb_ℤ (current +ℤ pos k) a.max_replicas)) [
        | inl e ↦
            rw e (stay (current +ℤ pos k) (ground arith) (ground arith) (omega arith) (omega arith))
        | inr e ↦
            rw e (stay a.max_replicas (omega arith) (omega arith) (ground arith) (omega arith))
      ]

  down-Within : Within a current (max_ℤ a.min_replicas (current -ℤ pos 1))
  down-Within =
      let sum = -ℤ_parts current (pos 1) in
      elim (Bool-cases (ltb_ℤ a.min_replicas (current -ℤ pos 1))) [
        | inl e ↦
            rw e (stay (current -ℤ pos 1) (ground arith) (omega arith) (omega arith) (omega arith))
        | inr e ↦
            rw e (stay a.min_replicas (omega arith) (omega arith) (omega arith) (ground arith))
      ]

  -- For a number of replicas within the bounds of the advisor, the advice is within the bounds, at
  -- most two more and at most one less.
  pub recommend-InBounds :
      (m : WorkloadMetrics) → Within a current (recommend current m a).desired_replicas
  unfolding recommend
  recommend-InBounds m =
      elim (Bool-cases (ltb_ℤ (m.throughput_per_minute +ℤ m.throughput_per_minute) m.queue_depth)) [
        | inl e ↦ rw e (up-Within 2 (omega arith))
        | inr e ↦ rw e (elim (Bool-cases m.cpu_high) [
          | inl f ↦ rw f (up-Within 1 (omega arith))
          | inr f ↦
              rw f
                (elim (Bool-cases
                  (m.cpu_low && leb_ℤ m.queue_depth (pos 0) && leb_ℤ (pos 0) m.queue_depth)) [
                    | inl g ↦ rw g down-Within
                    | inr g ↦ rw g (stay current low high (omega arith) (omega arith))
                  ])
        ])
      ]
