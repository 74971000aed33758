-- ===== src/Singularity.antt =====
-- services/singularity/src: the bus and the agents of orchestrator.py, agents.py and run.py. What json
-- reads out of a report, and the bytes of a SHA-256 digest, are parameters.
pub mod Laws
pub mod Loop
mod Tests
use zlttbots.Prelude.{
  ℕ, zero, suc, ◌+◌, ◌%◌, Bool, true, false, not, ◌&&◌, ◌==◌, String, str_eq, string_eq, is_blank,
  Option, none, some, List, [], ◌∷◌, ◌++◌, map, length, any_of, all_of, enumerate, Outcome, ok,
  raised, value_error, concat, if◌then◌else◌,
}
use zlttbots.Prelude.Dict.{Dict, get_or}

pub record Finding : Type 0 where
  pub rule : String
  pub severity : String
  pub root_cause : String
  pub impact : String

-- a result of a report, by the two keys that are read
pub record SarifResult : Type 0 where
  pub rule_id : Option String
  pub level : Option String

pub record AttackResult : Type 0 where
  pub payload : String
  pub blocked : Bool

-- an event by its topic, with the payload that the code gives it
pub data Event : Type 0 where
  repo_pushed sarif_ready : String → Event
  findings_enriched : List Finding → Event
  patch_generated : String → ℕ → Event
  attack_results : List AttackResult → String → Event
  verify_done : Bool → String → List AttackResult → Event
  deploy_policy : List String → Event
  -- with the event that it comes after
  patch_revise : String → Event → Event

abbrev pub topic_of : Event → String
topic_of (repo_pushed sarif) = "repo.pushed"
topic_of (sarif_ready sarif) = "sarif.ready"
topic_of (findings_enriched fs) = "findings.enriched"
topic_of (patch_generated patch count) = "patch.generated"
topic_of (attack_results rs patch) = "attack.results"
topic_of (verify_done passed patch rs) = "verify.done"
topic_of (deploy_policy lines) = "deploy.policy"
topic_of (patch_revise reason previous) = "patch.revise"

pub record EventBus : Type 0 where
  pub queue : List Event
  pub history : List Event

abbrev pub new_bus : EventBus
new_bus = record { queue = []; history = [] }

-- for a topic that is not empty, which no topic of an event is
unfoldable pub publish : Event → EventBus → EventBus
publish e b = record { queue = b.queue ++ e ∷ []; history = b.history ++ e ∷ [] }

pub data Agent : Type 0 where
  scan reason fix attack verify defend pr_bot learn : Agent

abbrev pub subscriptions : Agent → List String
subscriptions scan = "repo.pushed" ∷ []
subscriptions reason = "sarif.ready" ∷ []
subscriptions fix = "findings.enriched" ∷ []
subscriptions attack = "patch.generated" ∷ []
subscriptions verify = "attack.results" ∷ []
subscriptions defend = "verify.done" ∷ []
subscriptions pr_bot = "verify.done" ∷ []
subscriptions learn = "verify.done" ∷ []

abbrev pub root_cause_by_rule : Dict String String
root_cause_by_rule =
    ("py/sql-injection", "unsanitized user input reaches database query")
    ∷ ("py/path-injection", "path input is not canonicalized")
    ∷ ("py/ssrf", "outbound URL is not allow-listed")
    ∷ []

abbrev pub impact_by_rule : Dict String String
impact_by_rule =
    ("py/sql-injection", "data exfiltration and data tampering")
    ∷ ("py/path-injection", "arbitrary file read")
    ∷ ("py/ssrf", "metadata credential leakage")
    ∷ []

abbrev pub text_or : String → Option String → String
text_or default none = default
text_or default (some s) = s

unfoldable pub finding_of : SarifResult → Finding
finding_of r =
    let rule = text_or "unknown" r.rule_id in
    record {
      rule = rule;
      severity = text_or "warning" r.level;
      root_cause = get_or "unknown input handling weakness" rule root_cause_by_rule;
      impact = get_or "security impact requires triage" rule impact_by_rule;
    }

-- the findings of all runs of a report
unfoldable pub findings_of : List (List SarifResult) → List Finding
unfolding finding_of
findings_of [] = []
findings_of (run ∷ runs) = map finding_of run ++ findings_of runs

-- `"\n".join(lines)`
unfoldable pub join_lines : List String → String
join_lines [] = ""
join_lines (line ∷ []) = line
join_lines (line ∷ next ∷ lines) = concat (line ∷ "\n" ∷ join_lines (next ∷ lines) ∷ [])

unfoldable pub patch_of : List Finding → String
unfolding join_lines
patch_of fs =
    join_lines (map (λ (f : Finding). concat ("# enforce remediation for " ∷ f.rule ∷ [])) fs)

abbrev pub attack_payloads : List String
attack_payloads =
    "../../etc/passwd" ∷ "http://169.254.169.254/latest/meta-data/" ∷ "' OR 1=1 --" ∷ []

abbrev pub policy_lines : List String
policy_lines =
    "block egress to 169.254.169.254/32" ∷ "enforce path normalization"
    ∷ "enforce parameterized database queries" ∷ []

abbrev pub verdict : Bool → Event → Event
verdict true previous = deploy_policy policy_lines
verdict false previous = patch_revise "attack simulation failed" previous

module _ (read_sarif : String → Outcome (List (List SarifResult)))
    (digest_byte : String → ℕ → ℕ) where
  -- whether the attack of a number is blocked by a patch
  unfoldable pub blocks : String → ℕ → Bool
  blocks patch i = not (digest_byte patch i % 5 == 0)

  unfoldable pub simulate : String → List AttackResult
  unfolding blocks
  simulate patch =
      map (λ (c : ℕ × String). record { payload = c.1; blocked = blocks patch c.0 })
        (enumerate 0 attack_payloads)

  unfoldable pub reason_on : Outcome (List (List SarifResult)) → EventBus → Outcome EventBus
  unfolding findings_of publish
  reason_on (raised e) b = raised e
  reason_on (ok runs) b = ok (publish (findings_enriched (findings_of runs)) b)

  -- `handle`; pr_bot and learn only write to the log
  unfoldable pub handle : Agent → Event → EventBus → Outcome EventBus
  unfolding reason_on patch_of simulate publish
  handle scan (repo_pushed sarif) b =
      if is_blank sarif
      then raised (value_error "sarif payload must include non-empty 'sarif' text")
      else ok (publish (sarif_ready sarif) b)
  handle reason (sarif_ready sarif) b = reason_on (read_sarif sarif) b
  handle fix (findings_enriched fs) b = ok (publish (patch_generated (patch_of fs) (length fs)) b)
  handle attack (patch_generated patch count) b =
      ok (publish (attack_results (simulate patch) patch) b)
  handle verify (attack_results rs patch) b =
      ok (publish (verify_done (all_of (λ (r : AttackResult). r.blocked) rs) patch rs) b)
  handle defend (verify_done passed patch rs) b =
      ok (publish (verdict passed (verify_done passed patch rs)) b)
  handle _ e b = ok b

  unfoldable pub dispatch : List Agent → Event → EventBus → Outcome EventBus
  unfolding handle
  dispatch [] e b = ok b
  dispatch (a ∷ agents) e b =
      if any_of (str_eq (topic_of e)) (subscriptions a)
      then elim (handle a e b) [ raised x ↦ raised x | ok b' ↦ dispatch agents e b' ]
      else dispatch agents e b

  -- the events of `run`, on fuel: none is a run that did not end
  unfoldable pub run : ℕ → List Agent → EventBus → Option (Outcome EventBus)
  unfolding dispatch
  run zero agents b = none
  run (suc fuel) agents b = elim b.queue [
    | [] ↦ some (ok b)
    | e ∷ rest ↦ elim (dispatch agents e (record b { queue = rest })) [
      | raised x ↦ some (raised x)
      | ok b' ↦ run fuel agents b'
    ]
  ]

  abbrev pub all_agents : List Agent
  all_agents = scan ∷ reason ∷ fix ∷ attack ∷ verify ∷ defend ∷ pr_bot ∷ learn ∷ []

  -- run.py: seven events follow each other, and the eighth round finds none
  unfoldable pub main : String → Option (Outcome EventBus)
  unfolding run
  main sarif = run 8 all_agents (publish (repo_pushed sarif) new_bus)
