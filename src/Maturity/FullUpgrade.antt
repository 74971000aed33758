-- ===== src/Maturity/FullUpgrade.antt =====
-- enterprise_maturity/full_upgrade.py: the blueprint of the whole platform, and its checks.
pub mod Laws
use zlttbots.Prelude.{
  ℕ, zero, suc, Bool, true, false, not, ◌||◌, ◌&&◌, String, str_eq, List, [], ◌∷◌, length, all_of,
  ltb, Outcome, ok, raised, value_error, raise_if, ◌>>◌, ◌>>=◌,
}
use zlttbots.Prelude.Int.{ℤ, pos, ltb_ℤ}
use zlttbots.Maturity.Blueprint.{member}

pub record Microservice : Type 0 where
  pub name : String
  pub domain : String
  pub runtime : String

abbrev pub microservice : String → String → String → Microservice
microservice name domain runtime = record { name = name; domain = domain; runtime = runtime }

pub record CrawlerCluster : Type 0 where
  pub queue_backend : String
  pub scheduler : String
  pub max_workers : ℤ

pub record AiVideoPipeline : Type 0 where
  pub stages : List String

pub record UpgradeBlueprint : Type 0 where
  pub services : List Microservice
  pub kafka_topics : List String
  pub crawler_cluster : CrawlerCluster
  pub ai_video_pipeline : AiVideoPipeline
  pub admin_dashboard_modules : List String
  pub frontend_apps : List String
  pub kubernetes_namespaces : List String
  pub cicd_stages : List String

-- `required.issubset(set(given))`
unfoldable pub is_subset : List String → List String → Bool
is_subset required given = all_of (λ r. member r given) required

abbrev pub required_video_stages : List String
required_video_stages = "ingest" ∷ "storyboard" ∷ "render" ∷ "qa" ∷ "publish" ∷ []

abbrev pub required_dashboard : List String
required_dashboard = "tenants" ∷ "campaigns" ∷ "billing" ∷ "observability" ∷ "rbac" ∷ []

abbrev pub required_cicd : List String
required_cicd = "lint" ∷ "test" ∷ "build" ∷ "security-scan" ∷ "deploy" ∷ []

unfoldable pub validate_upgrade : UpgradeBlueprint → Outcome (Unit {0})
unfolding is_subset
validate_upgrade b =
    raise_if (ltb (length b.services) 25) (value_error "Upgrade requires at least 25 microservices")
    >> raise_if (ltb (length b.kafka_topics) 8)
        (value_error "Upgrade requires a full Kafka event system")
    >> raise_if (ltb_ℤ b.crawler_cluster.max_workers (pos 12))
        (value_error "Distributed crawler cluster must support at least 12 workers")
    >> raise_if (not (is_subset required_video_stages b.ai_video_pipeline.stages))
        (value_error "AI video pipeline stages are incomplete")
    >> raise_if (not (is_subset required_dashboard b.admin_dashboard_modules))
        (value_error "Admin dashboard modules are incomplete")
    >> raise_if (not (is_subset required_cicd b.cicd_stages))
        (value_error "CI/CD stages are incomplete")

abbrev pub full_upgrade_services : List Microservice
full_upgrade_services =
    microservice "gateway-api" "api" "node"
    ∷ microservice "identity-service" "security" "python"
    ∷ microservice "tenant-service" "core" "python"
    ∷ microservice "catalog-service" "commerce" "node"
    ∷ microservice "pricing-service" "commerce" "python"
    ∷ microservice "inventory-service" "commerce" "node"
    ∷ microservice "order-service" "commerce" "python"
    ∷ microservice "payment-service" "finance" "python"
    ∷ microservice "billing-service" "finance" "node"
    ∷ microservice "notification-service" "engagement" "node"
    ∷ microservice "analytics-service" "data" "python"
    ∷ microservice "event-collector" "data" "python"
    ∷ microservice "viral-predictor" "ai" "python"
    ∷ microservice "market-crawler" "crawler" "python"
    ∷ microservice "shopee-crawler" "crawler" "node"
    ∷ microservice "tiktok-shop-miner" "crawler" "node"
    ∷ microservice "arbitrage-engine" "trading" "python"
    ∷ microservice "ai-video-generator" "media" "node"
    ∷ microservice "gpu-renderer" "media" "python"
    ∷ microservice "asset-library" "media" "node"
    ∷ microservice "campaign-service" "marketing" "python"
    ∷ microservice "scheduler-service" "ops" "python"
    ∷ microservice "admin-panel-api" "admin" "node"
    ∷ microservice "frontend-web" "frontend" "nextjs"
    ∷ microservice "frontend-admin" "frontend" "nextjs"
    ∷ microservice "webhook-service" "integration" "python"
    ∷ microservice "audit-service" "security" "python"
    ∷ []

abbrev pub full_upgrade_blueprint : UpgradeBlueprint
full_upgrade_blueprint = record {
  services = full_upgrade_services;
  kafka_topics =
      "crawler.jobs" ∷ "crawler.results" ∷ "video.jobs" ∷ "video.completed" ∷ "campaign.events"
      ∷ "orders.events" ∷ "billing.events" ∷ "audit.events" ∷ "notifications.events" ∷ [];
  crawler_cluster = record { queue_backend = "kafka"; scheduler = "keda"; max_workers = pos 48 };
  ai_video_pipeline = record {
    stages = "ingest" ∷ "storyboard" ∷ "voiceover" ∷ "render" ∷ "qa" ∷ "publish" ∷ [];
  };
  admin_dashboard_modules =
      "tenants" ∷ "campaigns" ∷ "billing" ∷ "observability" ∷ "rbac" ∷ "approvals" ∷ [];
  frontend_apps = "storefront" ∷ "admin-console" ∷ "ops-console" ∷ [];
  kubernetes_namespaces = "zlttbots-core" ∷ "zlttbots-data" ∷ "zlttbots-ai" ∷ "zlttbots-edge" ∷ [];
  cicd_stages =
      "lint" ∷ "test" ∷ "build" ∷ "security-scan" ∷ "package" ∷ "deploy" ∷ "post-deploy-smoke" ∷ [];
}
