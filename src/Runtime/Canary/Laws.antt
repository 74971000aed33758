-- ===== src/Runtime/Canary/Laws.antt =====
-- The canary verdict against a description of it that uses no loop.
use mathlib.Core.List.{append_assoc, append-nil, Perm, perm_middle}
use mathlib.Core.List.Perm
use zlttbots.Prelude.{
  ◌≡◌, refl, ◌≢◌, ◌↔◌, String, Bool, true, false, not, List, [], ◌∷◌, ◌++◌, map, keep_if, any_of,
  All, ok, is_ok, arith, Bool-cases, inl, inr, if◌then◌else◌, text_leb, ok_of_bind,
}
use zlttbots.Prelude.Sorting.{sorted, sorted-perm}
use zlttbots.Runtime.Canary.{
  Floats, RegionalMetric, CanaryManager, Tally, CanaryAssessment, validate_metric, breaches,
  reason_for, count_region, assess_loop, conclude, assess,
}

module _ {fl : Floats} (c : CanaryManager fl) where
  abbrev pub safe_ones : List (RegionalMetric fl) → List String
  safe_ones ms = map (λ m. m.region) (keep_if (λ m. not (breaches c m)) ms)

  abbrev pub breaching_ones : List (RegionalMetric fl) → List String
  breaching_ones ms = map (λ m. m.region) (keep_if (breaches c) ms)

  abbrev pub breach_reasons : List (RegionalMetric fl) → List String
  breach_reasons ms = map reason_for (keep_if (breaches c) ms)

  abbrev pub IsSound : List (RegionalMetric fl) → Type 0
  IsSound = All (λ m. validate_metric m ≡ ok tt)

  loop_lem :
      (ms : List (RegionalMetric fl)) (t : Tally fl)
      → IsSound ms
      → assess_loop c ms t
        ≡ ok (record {
          safe = t.safe ++ safe_ones ms;
          rollback = t.rollback ++ breaching_ones ms;
          reasons = t.reasons ++ breach_reasons ms;
        })
  unfolding assess_loop count_region
  loop_lem [] t h = simp append-nil
  loop_lem (m ∷ ms) t h = elim (Bool-cases (breaches c m)) [
    | inl bad ↦ rw (h.0, loop_lem ms (count_region c m t) h.1) (simp (bad, append_assoc))
    | inr good ↦ rw (h.0, loop_lem ms (count_region c m t) h.1) (simp (good, append_assoc))
  ]

  tally_of : List (RegionalMetric fl) → Tally fl
  tally_of ms = record {
    safe = safe_ones ms;
    rollback = breaching_ones ms;
    reasons = breach_reasons ms;
  }

  assess_lem :
      (ms : List (RegionalMetric fl))
      → ms ≢ []
      → IsSound ms
      → assess c ms ≡ ok (conclude (tally_of ms) (breaching_ones ms))
  unfolding assess tally_of
  assess_lem [] some_metric h = absurd (some_metric refl)
  assess_lem (m ∷ ms) some_metric h = rw (loop_lem (m ∷ ms) _ h)

  abbrev is_empty : List String → Bool
  is_empty [] = true
  is_empty (_ ∷ _) = false

  any-breaching :
      (ms : List (RegionalMetric fl)) → any_of (breaches c) ms ≡ not (is_empty (breaching_ones ms))
  any-breaching [] = refl
  any-breaching (m ∷ ms) = elim (Bool-cases (breaches c m)) [
    | inl bad ↦ rw bad
    | inr good ↦ rw good (any-breaching ms)
  ]

  conclude_lem :
      (t : Tally fl) (bad : List String)
      → ((conclude t bad).decision ≡ (if is_empty bad then "promote" else "rollback"))
        × ((conclude t bad).safe_regions ≡ sorted text_leb t.safe)
        × ((conclude t bad).rollback_regions ≡ sorted text_leb bad)
  unfolding conclude sorted
  conclude_lem t [] = (refl, refl, refl)
  conclude_lem t (b ∷ bs) = (refl, refl, refl)

  partition-perm :
      (ms : List (RegionalMetric fl))
      → Perm (safe_ones ms ++ breaching_ones ms) (map (λ m. m.region) ms)
  partition-perm [] = Perm.refl []
  partition-perm (m ∷ ms) = elim (Bool-cases (breaches c m)) [
    | inl bad ↦ rw bad (
        Perm.trans (perm_middle (safe_ones ms) (breaching_ones ms))
          (Perm.cons m.region (partition-perm ms)))
    | inr good ↦ rw good (Perm.cons m.region (partition-perm ms))
  ]

  -- For a list of sound metrics that is not empty the verdict is "rollback" exactly if some region
  -- breaches a threshold, else "promote"; the two lists of regions hold the regions that breach and
  -- those that do not, in order, and together they are the regions of the metrics.
  pub assess_decides :
      (ms : List (RegionalMetric fl))
      → ms ≢ []
      → IsSound ms
      → (a : CanaryAssessment) × (assess c ms ≡ ok a)
        × (a.decision ≡ (if any_of (breaches c) ms then "rollback" else "promote"))
        × (a.safe_regions ≡ sorted text_leb (safe_ones ms))
        × (a.rollback_regions ≡ sorted text_leb (breaching_ones ms))
        × Perm (a.safe_regions ++ a.rollback_regions) (map (λ m. m.region) ms)
  unfolding tally_of
  assess_decides ms some_metric h =
      let a = conclude (tally_of ms) (breaching_ones ms) in
      let (verdict, safe, bad) = conclude_lem (tally_of ms) (breaching_ones ms) in
      (
        a,
        assess_lem ms some_metric h,
        ground (arith, any-breaching ms),
        safe,
        bad,
        rw (safe, bad)
            (Perm.trans
              (Perm.append (sorted-perm text_leb (safe_ones ms))
                (sorted-perm text_leb (breaching_ones ms)))
              (partition-perm ms)),
      )

  loop-IsSound :
      (ms : List (RegionalMetric fl)) (t : Tally fl)
      → is_ok (assess_loop c ms t) ≡ true
      → IsSound ms
  unfolding assess_loop
  loop-IsSound [] t h = tt
  loop-IsSound (m ∷ ms) t h =
      let (u, sound, rest) =
        ok_of_bind (validate_metric m) (λ _. assess_loop c ms (count_region c m t)) h in
      (sound, loop-IsSound ms (count_region c m t) rest)

  accepted-IsSound :
      (ms : List (RegionalMetric fl)) → is_ok (assess c ms) ≡ true → (ms ≢ []) × IsSound ms
  unfolding assess
  accepted-IsSound [] h = cc
  accepted-IsSound (m ∷ ms) h =
      let empty_tally : Tally fl = record { safe = []; rollback = []; reasons = [] } in
      let (t, done, rest) =
        ok_of_bind (assess_loop c (m ∷ ms) empty_tally) (λ t. ok (conclude t t.rollback)) h in
      (λ e. cc, loop-IsSound (m ∷ ms) empty_tally (rw done))

  -- The assessment succeeds exactly for a list of sound metrics that is not empty.
  pub assess_accepts :
      (ms : List (RegionalMetric fl)) → (is_ok (assess c ms) ≡ true) ↔ ((ms ≢ []) × IsSound ms)
  assess_accepts ms = (accepted-IsSound ms, λ (some_metric, h). rw (assess_lem ms some_metric h))
