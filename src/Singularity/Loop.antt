-- ===== src/Singularity/Loop.antt =====
-- What a run on a report goes through.
use zlttbots.Prelude.{
  ℕ, ◌≡◌, refl, ◌∙◌, Bool, true, false, String, is_blank, some, List, [], ◌∷◌, length, Outcome, ok,
  raised, value_error, Outcome-cases, Bool-cases, inl, inr, if◌then◌else◌, all_of, Error,
}
use zlttbots.Singularity.{
  Event, repo_pushed, sarif_ready, findings_enriched, patch_generated, attack_results, verify_done,
  EventBus, SarifResult, publish, findings_of, patch_of, blocks, simulate, reason_on, verdict,
  handle, dispatch, run, all_agents, main,
}
use zlttbots.Singularity.Laws.{run_next, run_stops}

module _ (read_sarif : String → Outcome (List (List SarifResult)))
    (digest_byte : String → ℕ → ℕ) where
  -- whether a patch blocks the three attacks
  abbrev pub passes : String → Bool
  passes patch = all_of (blocks read_sarif digest_byte patch) (0 ∷ 1 ∷ 2 ∷ [])

  abbrev pub verdict_on : String → Event
  verdict_on patch = verify_done (passes patch) patch (simulate read_sarif digest_byte patch)

  -- the events of a report that can be read, in their order
  abbrev pub closed_loop : String → List (List SarifResult) → List Event
  closed_loop sarif runs =
      let found = findings_of runs in
      let patch = patch_of found in
      repo_pushed sarif
      ∷ sarif_ready sarif
      ∷ findings_enriched found
      ∷ patch_generated patch (length found)
      ∷ attack_results (simulate read_sarif digest_byte patch) patch
      ∷ verdict_on patch
      ∷ verdict (passes patch) (verdict_on patch)
      ∷ []

  abbrev pub ended : String → Outcome (List (List SarifResult)) → Outcome EventBus
  ended sarif (raised e) = raised e
  ended sarif (ok runs) = ok (record { queue = []; history = closed_loop sarif runs })

  scan_blank :
      (sarif : String) (b : EventBus)
      → is_blank sarif ≡ true
      → dispatch read_sarif digest_byte (all_agents read_sarif digest_byte) (repo_pushed sarif) b
        ≡ raised (value_error "sarif payload must include non-empty 'sarif' text")
  unfolding dispatch handle
  scan_blank sarif b e = rw e refl

  scan_report :
      (sarif : String) (b : EventBus)
      → is_blank sarif ≡ false
      → dispatch read_sarif digest_byte (all_agents read_sarif digest_byte) (repo_pushed sarif) b
        ≡ ok (publish (sarif_ready sarif) b)
  unfolding dispatch handle
  scan_report sarif b e = rw e refl

  reason_fails :
      (sarif : String) (x : Error) (b : EventBus)
      → read_sarif sarif ≡ raised x
      → dispatch read_sarif digest_byte (all_agents read_sarif digest_byte) (sarif_ready sarif) b
        ≡ raised x
  unfolding dispatch handle reason_on
  reason_fails sarif x b r = rw r refl

  reason_report :
      (sarif : String) (runs : List (List SarifResult)) (b : EventBus)
      → read_sarif sarif ≡ ok runs
      → dispatch read_sarif digest_byte (all_agents read_sarif digest_byte) (sarif_ready sarif) b
        ≡ ok (publish (findings_enriched (findings_of runs)) b)
  unfolding dispatch handle reason_on
  reason_report sarif runs b r = rw r refl

  last_event :
      (passed : Bool) (previous : Event) (history : List Event)
      → run read_sarif digest_byte 2
          (all_agents read_sarif digest_byte)
          (record { queue = verdict passed previous ∷ []; history = history })
        ≡ some (ok (record { queue = []; history = history }))
  unfolding run dispatch handle
  last_event true previous history = refl
  last_event false previous history = refl

  -- A run on a report ends: it raises if the report is blank or cannot be read, and else goes through
  -- each stage once, in their order, to a policy exactly if the digest of the patch blocks all three
  -- attacks, and to a revision of the patch if not.
  pub main_lem :
      (sarif : String)
      → main read_sarif digest_byte sarif
        ≡ some (
            if is_blank sarif
            then raised (value_error "sarif payload must include non-empty 'sarif' text")
            else ended sarif (read_sarif sarif))
  unfolding main run dispatch handle publish reason_on simulate
  main_lem sarif = elim (Bool-cases (is_blank sarif)) [
    | inl e ↦ rw e (
        run_stops read_sarif digest_byte 7 (repo_pushed sarif) [] (repo_pushed sarif ∷ []) _
          (scan_blank sarif (record { queue = []; history = repo_pushed sarif ∷ [] }) e))
    | inr e ↦ elim (Outcome-cases (read_sarif sarif)) [
      | inr (x, r) ↦ rw e (
          rw r (
            run_next read_sarif digest_byte 7 (repo_pushed sarif) [] (repo_pushed sarif ∷ []) _
              (scan_report sarif (record { queue = []; history = repo_pushed sarif ∷ [] }) e)
            ∙ run_stops read_sarif digest_byte 6 (sarif_ready sarif) [] _ x
                (reason_fails sarif x _ r)))
      | inl (runs, r) ↦ rw e (
          rw r (
            run_next read_sarif digest_byte 7 (repo_pushed sarif) [] (repo_pushed sarif ∷ []) _
              (scan_report sarif (record { queue = []; history = repo_pushed sarif ∷ [] }) e)
            ∙ run_next read_sarif digest_byte 6 (sarif_ready sarif) [] _ _
                (reason_report sarif runs _ r)
            ∙ last_event (passes (patch_of (findings_of runs)))
                (verdict_on (patch_of (findings_of runs))) (closed_loop sarif runs)))
    ]
  ]
