-- ===== src/Maturity/Roadmap.antt =====
-- enterprise_maturity/roadmap.py: the table of the roadmap.
use zlttbots.Prelude.{ℕ, suc, Bool, true, ◌&&◌, ◌==◌, ◌≡◌, refl, String, List, [], ◌∷◌}

pub record RoadmapItem : Type 0 where
  pub id : ℕ
  pub title : String
  pub implementation : String

abbrev pub item : ℕ → String → String → RoadmapItem
item id title implementation = record { id = id; title = title; implementation = implementation }

abbrev pub roadmap_implementation : List RoadmapItem
roadmap_implementation =
    item 1 "Centralized secrets management" "enterprise_maturity.security.SecretManager"
    ∷ item 2 "SSO + RBAC for admin panel and internal APIs"
        "enterprise_maturity.security.RBACPolicy"
    ∷ item 3 "Audit log pipeline for privileged actions"
        "enterprise_maturity.security.AuditLogPipeline"
    ∷ item 4 "Automated SAST/DAST and container image scanning in CI"
        ".github/workflows/zlttbots-ci.yml"
    ∷ item 5 "CI/CD gates before deploy" ".github/workflows/zlttbots-ci.yml"
    ∷ item 6 "Environment promotion workflow with approvals" ".github/workflows/zlttbots-ci.yml"
    ∷ item 7 "Define and track SLOs per service" "enterprise_maturity.operations.SLO"
    ∷ item 8 "Circuit breakers, retries with backoff, idempotency keys"
        "enterprise_maturity.resilience"
    ∷ item 9 "Unified logs, metrics, traces" "docs/operations/monitoring.md"
    ∷ item 10 "Runbooks for every production service and worker" "docs/operations/runbooks"
    ∷ item 11 "Alert routing with severity policy and ownership"
        "enterprise_maturity.operations.SeverityPolicy"
    ∷ item 12 "Capacity dashboards and error budget views" "docs/operations/slo-catalog.md"
    ∷ item 13 "Synthetic checks for public and key internal paths"
        "enterprise_maturity.operations.SyntheticProbe"
    ∷ item 14 "IaC policy checks for k8s and docker changes"
        "infrastructure/scripts/check-iac-policy.sh"
    ∷ item 15 "Versioned API contracts and compatibility verification"
        "enterprise_maturity.governance.assert_backward_compatible"
    ∷ item 16 "Change management template for high-risk rollouts"
        "enterprise_maturity.governance.ChangeRecord"
    ∷ item 17 "Data retention + PII controls" "docs/security/audit-event-schema.md"
    ∷ item 18 "Multi-AZ database and Redis HA with failover playbooks"
        "docs/operations/disaster-recovery.md"
    ∷ item 19 "Blue/green or canary deployments" "infrastructure/ci/deploy.sh"
    ∷ item 20 "Disaster recovery with RPO/RTO targets and drills"
        "docs/operations/disaster-recovery.md"
    ∷ item 21 "Autoscaling tuning with workload metrics"
        "enterprise_maturity.performance.AutoscalingAdvisor"
    ∷ item 22 "Workload profiling" "docs/infrastructure/scaling.md"
    ∷ item 23 "Cost allocation tags and cloud spend dashboard"
        "infrastructure/k8s/config/configmap.yaml"
    ∷ item 24 "Queue prioritization and admission control"
        "enterprise_maturity.performance.QueueAdmissionController"
    ∷ item 25 "Periodic rightsizing for compute-heavy services"
        "infrastructure/scripts/zlttbots-resource-optimizer.sh"
    ∷ []

-- the identifiers are consecutive from a number on
abbrev numbered : ℕ → List RoadmapItem → Bool
numbered n [] = true
numbered n (i ∷ is) = i.id == n && numbered (suc n) is

roadmap_numbered : numbered 1 roadmap_implementation ≡ true
roadmap_numbered = refl
