-- ===== src/Runtime/Gpu/Choice.antt =====
-- The node that `schedule` chooses: it has room, and no node with room has less.
use zlttbots.Prelude.{
  ℕ, ◌≡◌, true, List, [], ◌∷◌, All, arith, Bool-cases, inl, inr, false, subst, sym,
}
use zlttbots.Prelude.Int.{◌≤ℤ◌, ltb_ℤ}
use zlttbots.Runtime.Gpu.{GpuNode, available_gb, least}

-- What holds of every candidate holds of the chosen one.
pub least_among {κ} :
    (P : ℕ × GpuNode → Type κ) (best : ℕ × GpuNode) (cs : List (ℕ × GpuNode))
    → P best
    → All P cs
    → P (least best cs)
unfolding least
least_among P best [] b h = b
least_among P best (c ∷ cs) b h =
    elim (Bool-cases (ltb_ℤ (available_gb c.1) (available_gb best.1))) [
      | inl less ↦ rw less (least_among P c cs h.0 h.1)
      | inr more ↦ rw more (least_among P best cs b h.1)
    ]

pub least-le :
    (best : ℕ × GpuNode) (cs : List (ℕ × GpuNode))
    → available_gb (least best cs).1 ≤ℤ available_gb best.1
unfolding least
least-le best [] = omega arith
least-le best (c ∷ cs) = ground (arith, least-le c cs, least-le best cs)

least_first :
    (best c : ℕ × GpuNode) (cs : List (ℕ × GpuNode))
    → ltb_ℤ (available_gb c.1) (available_gb best.1) ≡ true
    → least best (c ∷ cs) ≡ least c cs
unfolding least
least_first best c cs h = rw h

least_later :
    (best c : ℕ × GpuNode) (cs : List (ℕ × GpuNode))
    → ltb_ℤ (available_gb c.1) (available_gb best.1) ≡ false
    → least best (c ∷ cs) ≡ least best cs
unfolding least
least_later best c cs h = rw h

-- No candidate has less room than the chosen one.
pub least_minimal :
    (best : ℕ × GpuNode) (cs : List (ℕ × GpuNode))
    → All (λ c. available_gb (least best cs).1 ≤ℤ available_gb c.1) (best ∷ cs)
unfolding least
least_minimal best [] = (omega arith, tt)
least_minimal best (c ∷ cs) = elim (Bool-cases (ltb_ℤ (available_gb c.1) (available_gb best.1))) [
  | inl less ↦
      let h = least_minimal c cs in
      subst (λ b. All (λ d. available_gb b.1 ≤ℤ available_gb d.1) (best ∷ c ∷ cs))
        (sym (least_first best c cs less)) (ground (arith, least-le c cs), h)
  | inr more ↦
      let h = least_minimal best cs in
      subst (λ b. All (λ d. available_gb b.1 ≤ℤ available_gb d.1) (best ∷ c ∷ cs))
        (sym (least_later best c cs more)) (h.0, (ground (arith, least-le best cs), h.1))
]
