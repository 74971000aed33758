-- ===== src/Maturity/Blueprint.antt =====
-- enterprise_maturity/v3_upgrade.py: the blueprint of the upgrade, and the checks on a blueprint.
pub mod Laws
use zlttbots.Prelude.{
  ℕ, Bool, true, false, not, ◌||◌, ◌&&◌, ◌==◌, String, str_eq, List, [], ◌∷◌, ◌++◌, map, length,
  any_of, Outcome, ok, raised, value_error, key_error, raise_if, ◌>>◌, ◌>>=◌, concat, if◌then◌else◌,
}
use zlttbots.Prelude.Int.{ℤ, pos, leb_ℤ}

pub record UpgradeComponent : Type 0 where
  pub name : String
  pub area : String
  pub criticality : String
  pub dependencies : List String

pub record TopicSpec : Type 0 where
  pub name : String
  pub partitions : ℤ
  pub retention_hours : ℤ

pub record UpgradePhase : Type 0 where
  pub name : String
  pub goals : List String
  pub exit_criteria : List String

pub record EnterpriseUpgradeV3 : Type 0 where
  pub components : List UpgradeComponent
  pub topics : List TopicSpec
  pub phases : List UpgradePhase

abbrev pub component : String → String → String → List String → UpgradeComponent
component name area criticality dependencies = record {
  name = name;
  area = area;
  criticality = criticality;
  dependencies = dependencies;
}

abbrev pub topic : String → ℤ → ℤ → TopicSpec
topic name partitions retention_hours = record {
  name = name;
  partitions = partitions;
  retention_hours = retention_hours;
}

abbrev pub phase : String → List String → List String → UpgradePhase
phase name goals exit_criteria = record {
  name = name;
  goals = goals;
  exit_criteria = exit_criteria;
}

abbrev pub default_components : List UpgradeComponent
default_components =
    component "traefik-gateway" "gateway" "high" ("oidc-auth" ∷ [])
    ∷ component "kafka-backbone" "eventing" "high" ("redis" ∷ [])
    ∷ component "video-pipeline" "ai" "high" ("kafka-backbone" ∷ "gpu-renderer" ∷ [])
    ∷ component "crawler-fleet" "crawlers" "high" ("kafka-backbone" ∷ [])
    ∷ component "otel-observability" "operations" "medium" ("prometheus" ∷ "loki" ∷ "jaeger" ∷ [])
    ∷ component "n8n-orchestrator" "automation" "medium" ("kafka-backbone" ∷ "video-pipeline" ∷ [])
    ∷ component "k8s-runtime" "infrastructure" "high"
        ("traefik-gateway" ∷ "otel-observability" ∷ [])
    ∷ []

abbrev pub default_topics : List TopicSpec
default_topics =
    topic "crawl.jobs" (pos 12) (pos 72)
    ∷ topic "video.render" (pos 6) (pos 48)
    ∷ topic "tiktok.upload" (pos 6) (pos 48)
    ∷ topic "analytics.events" (pos 18) (pos 168)
    ∷ []

abbrev pub default_phases : List UpgradePhase
default_phases =
    phase "phase-1-foundation"
      ("Introduce Traefik in parallel with NGINX" ∷ "Enable Kafka dual-publish for core producers"
        ∷ "Deploy baseline observability stack" ∷ [])
      ("Gateway routes pass smoke checks" ∷ "Critical producers emit to Kafka topics"
        ∷ "SLI dashboards available for APIs and workers" ∷ [])
    ∷ phase "phase-2-service-refactor"
        ("Split AI pipeline into explicit service stages"
          ∷ "Normalize crawler contracts and payloads" ∷ "Enforce tenant-aware auth middleware"
          ∷ [])
        ("AI stages deploy independently" ∷ "Contract checks pass for top service edges"
          ∷ "Privileged APIs require scoped tokens" ∷ [])
    ∷ phase "phase-3-kubernetes"
        ("Migrate APIs and workers to Kubernetes" ∷ "Enable HPA for stateless workloads"
          ∷ "Provision dedicated GPU node pool" ∷ [])
        ("Compose no longer required in production" ∷ "HPA reacts within SLO thresholds"
          ∷ "GPU workloads isolated to dedicated nodes" ∷ [])
    ∷ phase "phase-4-enterprise-operations"
        ("Deploy n8n workflows for end-to-end automation" ∷ "Enable canary or blue/green delivery"
          ∷ "Operationalize SLOs and DR drills" ∷ [])
        ("Workflow automation completes without manual hand-offs"
          ∷ "Progressive delivery rollback tested" ∷ "DR drills meet declared RPO/RTO targets" ∷ [])
    ∷ []

abbrev pub default_blueprint : EnterpriseUpgradeV3
default_blueprint = record {
  components = default_components;
  topics = default_topics;
  phases = default_phases;
}

-- `x in xs`
abbrev pub member : String → List String → Bool
member x xs = any_of (str_eq x) xs

-- `set(values)`
unfoldable pub as_set : List String → List String
as_set [] = []
as_set (v ∷ vs) = let rest = as_set vs in if member v vs then rest else v ∷ rest

unfoldable pub require_unique : List String → String → Outcome (Unit {0})
require_unique values label =
    raise_if (not (length values == length (as_set values)))
      (value_error (concat ("Duplicate " ∷ label ∷ " names detected in v3 upgrade blueprint" ∷ [])))

-- the dependencies that the blueprint need not define
abbrev pub external : List String
external = "redis" ∷ "prometheus" ∷ "loki" ∷ "jaeger" ∷ "oidc-auth" ∷ "gpu-renderer" ∷ []

-- the inner loop over the dependencies of a component
unfoldable pub check_dependencies : List String → String → List String → Outcome (Unit {0})
check_dependencies names name [] = ok tt
check_dependencies names name (d ∷ ds) = do
  raise_if (not (member d external) && not (member d names))
      (value_error (concat ("Unknown dependency '" ∷ d ∷ "' for component '" ∷ name ∷ "'" ∷ [])))
  check_dependencies names name ds

unfoldable pub check_components : List String → List UpgradeComponent → Outcome (Unit {0})
unfolding check_dependencies
check_components names [] = ok tt
check_components names (c ∷ cs) = do
  check_dependencies names c.name c.dependencies
  check_components names cs

unfoldable pub check_topics : List TopicSpec → Outcome (Unit {0})
check_topics [] = ok tt
check_topics (t ∷ ts) = do
  raise_if (leb_ℤ t.partitions (pos 0))
      (value_error (concat ("Topic '" ∷ t.name ∷ "' must have at least one partition" ∷ [])))
  raise_if (leb_ℤ t.retention_hours (pos 0))
      (value_error (concat ("Topic '" ∷ t.name ∷ "' must have a positive retention policy" ∷ [])))
  check_topics ts

unfoldable pub validate : EnterpriseUpgradeV3 → Outcome (Unit {0})
unfolding require_unique check_components check_topics
validate b = do
  require_unique (map (λ c. c.name) b.components) "component"
  require_unique (map (λ t. t.name) b.topics) "topic"
  require_unique (map (λ p. p.name) b.phases) "phase"
  check_components (map (λ c. c.name) b.components) b.components
  check_topics b.topics

-- the loop of `phase_checklist`
unfoldable pub checklist_of : String → List UpgradePhase → Outcome (List String)
checklist_of name [] = raised (key_error (concat ("Unknown phase: " ∷ name ∷ [])))
checklist_of name (p ∷ ps) =
    let rest = checklist_of name ps in
    if str_eq p.name name then ok (p.goals ++ p.exit_criteria) else rest

unfoldable pub phase_checklist : String → EnterpriseUpgradeV3 → Outcome (List String)
unfolding checklist_of
phase_checklist name b = checklist_of name b.phases
