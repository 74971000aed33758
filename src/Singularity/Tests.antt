-- ===== src/Singularity/Tests.antt =====
-- The loop of the agents on one report.
use zlttbots.Prelude.{
  ℕ, ◌+◌, ◌≡◌, String, none, some, List, [], ◌∷◌, Outcome, ok, raised, value_error, arith, is_blank,
  if◌then◌else◌,
}
use zlttbots.Singularity.{EventBus, SarifResult, repo_pushed, attack_results, run, all_agents, main}
use zlttbots.Singularity.Laws.{run_ends}
use zlttbots.Singularity.Loop.{main_lem, ended}

abbrev read_one : String → Outcome (List (List SarifResult))
read_one sarif = ok ((record { rule_id = some "py/ssrf"; level = none } ∷ []) ∷ [])

abbrev digest_one : String → ℕ → ℕ
digest_one patch i = i + 1

-- a bus with two reports
abbrev busy : EventBus
busy = record { queue = repo_pushed "{}" ∷ attack_results [] "" ∷ []; history = [] }

run_ends_example :
    (r : Outcome EventBus) × (run read_one digest_one 11 (all_agents read_one digest_one) busy
      ≡ some r)
run_ends_example = run_ends read_one digest_one 11 busy (omega arith)

main_lem_example :
    main read_one digest_one "{}"
    ≡ some (
        if is_blank "{}"
        then raised (value_error "sarif payload must include non-empty 'sarif' text")
        else ended read_one digest_one "{}" (read_one "{}"))
main_lem_example = main_lem read_one digest_one "{}"
