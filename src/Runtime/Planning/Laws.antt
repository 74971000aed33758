-- ===== src/Runtime/Planning/Laws.antt =====
-- A plan runs every stage once.
use mathlib.Core.List.{Perm, perm_middle}
use mathlib.Core.List.Perm
use zlttbots.Prelude.{
  not, String, List, [], ◌∷◌, ◌++◌, map, keep_if, ok, raised, ◌≡◌, refl, ap, subst, Bool-cases,
  Outcome-cases, inl, inr, arith,
}
use zlttbots.Prelude.Int.{ℤ}
use zlttbots.Prelude.Sorting.{sorted-perm}
use zlttbots.Runtime.Planning.{
  StageTiming, OptimizationPlan, parallel_sorted, serial_sorted, parallel_group, longer_first,
  by_name, validate_stages, plan, optimize,
}

unfoldable pub flatten : List (List String) → List String
flatten [] = []
flatten (g ∷ gs) = g ++ flatten gs

abbrev pub stages : List StageTiming → List String
stages ts = map (λ s. s.stage) ts

flatten-parallel_group :
    (ps : List StageTiming) (gs : List (List String))
    → flatten (parallel_group ps ++ gs) ≡ stages ps ++ flatten gs
unfolding flatten
flatten-parallel_group [] gs = refl
flatten-parallel_group (p ∷ ps) gs = refl

flatten-singles : (ss : List StageTiming) → flatten (map (λ s. s.stage ∷ []) ss) ≡ stages ss
unfolding flatten
flatten-singles [] = refl
flatten-singles (s ∷ ss) = ap (λ x. s.stage ∷ x) (flatten-singles ss)

split-perm :
    (ts : List StageTiming)
    → Perm
        (stages (keep_if (λ s. s.parallelizable) ts)
          ++ stages (keep_if (λ s. not s.parallelizable) ts))
        (stages ts)
split-perm [] = Perm.refl _
split-perm (t ∷ ts) = elim (Bool-cases t.parallelizable) [
  | inl h ↦ rw h (Perm.cons t.stage (split-perm ts))
  | inr h ↦ rw h (Perm.trans (perm_middle _ _) (Perm.cons t.stage (split-perm ts)))
]

plan-perm :
    (stretched : ℤ → ℤ) (ts : List StageTiming)
    → Perm (flatten (plan stretched ts).ordered_groups) (stages ts)
unfolding plan
plan-perm stretched ts = rw (flatten-parallel_group (parallel_sorted ts) _) (
    rw (flatten-singles (serial_sorted ts)) (
      Perm.trans
        (Perm.append (Perm.map (λ s. s.stage) (sorted-perm longer_first _))
          (Perm.map (λ s. s.stage) (sorted-perm by_name _)))
        (split-perm ts)))

-- If the optimizer returns a plan, the groups of the plan hold the names of the stages that it was
-- given, each as often as it was given.
pub optimize-perm :
    (stretched : ℤ → ℤ) (ts : List StageTiming) (p : OptimizationPlan)
    → optimize stretched ts ≡ ok p
    → Perm (flatten p.ordered_groups) (stages ts)
unfolding optimize
optimize-perm stretched [] p h = ground (arith, h)
optimize-perm stretched (t ∷ ts) p h = elim (Outcome-cases (validate_stages [] (t ∷ ts))) [
  | inl (u, valid) ↦
      let made : optimize stretched (t ∷ ts) ≡ ok (plan stretched (t ∷ ts)) =
        rw (valid, optimize) refl in
      let same : plan stretched (t ∷ ts) ≡ p = ground (arith, made, h) in
      subst (λ q. Perm (flatten q.ordered_groups) (stages (t ∷ ts))) same
        (plan-perm stretched (t ∷ ts))
  | inr (e, fails) ↦
      let made : optimize stretched (t ∷ ts) ≡ raised e = rw (fails, optimize) refl in
      ground (arith, made, h)
]
