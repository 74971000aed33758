-- ===== src/Singularity/Laws.antt =====
-- The loop of the agents ends.
use zlttbots.Prelude.{
  ℕ, zero, suc, ◌+◌, ◌≤◌, ◌≡◌, refl, ◌∙◌, true, false, String, is_blank, some, List, [], ◌∷◌, ◌++◌,
  length, Outcome, ok, raised, value_error, Outcome-cases, Bool-cases, inl, inr, arith, all_of, ◌⊎◌,
  Error,
}
use zlttbots.Singularity.{
  Event, repo_pushed, sarif_ready, findings_enriched, patch_generated, attack_results, verify_done,
  deploy_policy, patch_revise, EventBus, SarifResult, AttackResult, publish, findings_of, patch_of,
  simulate, reason_on, verdict, handle, dispatch, run, all_agents,
}

-- how many events can still follow an event, itself included
abbrev pub weight : Event → ℕ
weight (repo_pushed sarif) = 7
weight (sarif_ready sarif) = 6
weight (findings_enriched fs) = 5
weight (patch_generated patch count) = 4
weight (attack_results rs patch) = 3
weight (verify_done passed patch rs) = 2
weight (deploy_policy lines) = 1
weight (patch_revise reason previous) = 1

abbrev pub total_weight : List Event → ℕ
total_weight [] = 0
total_weight (e ∷ es) = weight e + total_weight es

total_weight-append :
    (es fs : List Event) → total_weight (es ++ fs) ≡ total_weight es + total_weight fs
total_weight-append [] fs = omega arith
total_weight-append (e ∷ es) fs = omega (arith, total_weight-append es fs)

module _ (read_sarif : String → Outcome (List (List SarifResult)))
    (digest_byte : String → ℕ → ℕ) where
  -- what a dispatch comes to: an error, or a bus that waits for less
  abbrev Lighter : Event → EventBus → Type 0
  Lighter e b =
      ((b' : EventBus) × (dispatch read_sarif digest_byte (all_agents read_sarif digest_byte) e b
          ≡ ok b')
        × (total_weight b'.queue + 1 ≤ weight e + total_weight b.queue))
      ⊎ ((x : Error) × (dispatch read_sarif digest_byte (all_agents read_sarif digest_byte) e b
            ≡ raised x))

  dispatch-Lighter : (e : Event) (b : EventBus) → Lighter e b
  unfolding dispatch handle publish reason_on
  dispatch-Lighter (repo_pushed sarif) b = elim (Bool-cases (is_blank sarif)) [
    | inl e ↦ inr (value_error "sarif payload must include non-empty 'sarif' text", rw e refl)
    | inr e ↦
        let more = total_weight-append b.queue (sarif_ready sarif ∷ []) in
        inl (publish (sarif_ready sarif) b, rw e refl, omega arith)
  ]
  dispatch-Lighter (sarif_ready sarif) b = elim (Outcome-cases (read_sarif sarif)) [
    | inr (x, e) ↦ inr (x, rw e refl)
    | inl (runs, e) ↦
        let more = total_weight-append b.queue (findings_enriched (findings_of runs) ∷ []) in
        inl (publish (findings_enriched (findings_of runs)) b, rw e refl, omega arith)
  ]
  dispatch-Lighter (findings_enriched fs) b =
      let more = total_weight-append b.queue (patch_generated (patch_of fs) (length fs) ∷ []) in
      inl (_, refl, omega arith)
  dispatch-Lighter (patch_generated patch count) b =
      let more =
        total_weight-append b.queue
          (attack_results (simulate read_sarif digest_byte patch) patch ∷ []) in
      inl (_, refl, omega arith)
  dispatch-Lighter (attack_results rs patch) b =
      let more =
        total_weight-append b.queue
          (verify_done (all_of (λ (r : AttackResult). r.blocked) rs) patch rs ∷ []) in
      inl (_, refl, omega arith)
  dispatch-Lighter (verify_done true patch rs) b =
      let more = total_weight-append b.queue (verdict true (verify_done true patch rs) ∷ []) in
      inl (_, refl, omega arith)
  dispatch-Lighter (verify_done false patch rs) b =
      let more = total_weight-append b.queue (verdict false (verify_done false patch rs) ∷ []) in
      inl (_, refl, omega arith)
  dispatch-Lighter (deploy_policy lines) b = inl (_, refl, omega arith)
  dispatch-Lighter (patch_revise reason previous) b = inl (_, refl, omega arith)

  pub run_next :
      (fuel : ℕ) (e : Event) (queue history : List Event) (b : EventBus)
      → dispatch read_sarif digest_byte
          (all_agents read_sarif digest_byte)
          e
          (record { queue = queue; history = history })
        ≡ ok b
      → run read_sarif digest_byte
          (suc fuel)
          (all_agents read_sarif digest_byte)
          (record { queue = e ∷ queue; history = history })
        ≡ run read_sarif digest_byte fuel (all_agents read_sarif digest_byte) b
  unfolding run
  run_next fuel e queue history b next = rw (next, run) refl

  pub run_stops :
      (fuel : ℕ) (e : Event) (queue history : List Event) (x : Error)
      → dispatch read_sarif digest_byte
          (all_agents read_sarif digest_byte)
          e
          (record { queue = queue; history = history })
        ≡ raised x
      → run read_sarif digest_byte
          (suc fuel)
          (all_agents read_sarif digest_byte)
          (record { queue = e ∷ queue; history = history })
        ≡ some (raised x)
  unfolding run
  run_stops fuel e queue history x fails = rw (fails, run) refl

  run_from :
      (fuel : ℕ) (queue history : List Event)
      → total_weight queue + 1 ≤ fuel
      → (r : Outcome EventBus) × (run read_sarif digest_byte fuel
            (all_agents read_sarif digest_byte)
            (record { queue = queue; history = history })
          ≡ some r)
  unfolding run
  run_from zero queue history h = absurd (omega arith)
  run_from (suc fuel) [] history h = (ok (record { queue = []; history = history }), refl)
  run_from (suc fuel) (e ∷ queue) history h =
      elim (dispatch-Lighter e (record { queue = queue; history = history })) [
        | inr (x, fails) ↦ (raised x, run_stops fuel e queue history x fails)
        | inl (b, next, lighter) ↦
            let (r, end) = run_from fuel b.queue b.history (omega arith) in
            (r, run_next fuel e queue history b next ∙ end)
      ]

  -- Whatever events wait on the bus, the loop of the eight agents ends, with a bus or an error: a round
  -- for each event that can still follow one of them, and one more, are enough.
  pub run_ends :
      (fuel : ℕ) (b : EventBus)
      → total_weight b.queue + 1 ≤ fuel
      → (r : Outcome EventBus) × (run read_sarif digest_byte fuel
            (all_agents read_sarif digest_byte)
            b
          ≡ some r)
  run_ends fuel b h = run_from fuel b.queue b.history h
