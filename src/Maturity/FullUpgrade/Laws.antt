-- ===== src/Maturity/FullUpgrade/Laws.antt =====
-- Adding to a blueprint does not break it.
use zlttbots.Prelude.{
  ◌≡◌, refl, true, not, ◌&&◌, String, List, [], ◌∷◌, ◌++◌, length, is_ok, is_ok-bind,
  is_ok-raise_if, arith, length-append, ltb,
}
use zlttbots.Prelude.Int.{pos, ltb_ℤ}
use zlttbots.Maturity.Blueprint.{member}
use zlttbots.Maturity.FullUpgrade.{
  Microservice, UpgradeBlueprint, is_subset, required_video_stages, required_dashboard,
  required_cicd, validate_upgrade, full_upgrade_blueprint,
}

member-append : (x : String) (ys zs : List String) → member x ys ≡ true → member x (ys ++ zs) ≡ true
member-append x [] zs h = cc
member-append x (y ∷ ys) zs h = let rest = member-append x ys zs in ground arith

subset-append :
    (required ys zs : List String)
    → is_subset required ys ≡ true
    → is_subset required (ys ++ zs) ≡ true
unfolding is_subset
subset-append [] ys zs h = refl
subset-append (r ∷ rs) ys zs h =
    let here = member-append r ys zs in let rest = subset-append rs ys zs in ground arith

is_ok-validate_upgrade :
    (b : UpgradeBlueprint)
    → is_ok (validate_upgrade b) ≡ (
        not (ltb (length b.services) 25)
        && not (ltb (length b.kafka_topics) 8)
        && not (ltb_ℤ b.crawler_cluster.max_workers (pos 12))
        && is_subset required_video_stages b.ai_video_pipeline.stages
        && is_subset required_dashboard b.admin_dashboard_modules
        && is_subset required_cicd b.cicd_stages)
unfolding validate_upgrade
is_ok-validate_upgrade b = simp (is_ok-bind, is_ok-raise_if) (ground arith)

-- a blueprint with more services, topics, stages and modules
abbrev pub extend :
    UpgradeBlueprint
    → List Microservice
    → List String
    → List String
    → List String
    → List String
    → UpgradeBlueprint
extend b services topics video dashboard cicd = record b {
  services = b.services ++ services;
  kafka_topics = b.kafka_topics ++ topics;
  ai_video_pipeline = record { stages = b.ai_video_pipeline.stages ++ video };
  admin_dashboard_modules = b.admin_dashboard_modules ++ dashboard;
  cicd_stages = b.cicd_stages ++ cicd;
}

-- A blueprint that passes its checks passes them with any more services, topics, video stages, modules
-- of the dashboard and stages of the pipeline at the end.
pub validate_upgrade-extend :
    (b : UpgradeBlueprint) (services : List Microservice)
    (topics video dashboard cicd : List String)
    → is_ok (validate_upgrade b) ≡ true
    → is_ok (validate_upgrade (extend b services topics video dashboard cicd)) ≡ true
validate_upgrade-extend b services topics video dashboard cicd h =
    let before = is_ok-validate_upgrade b in
    let after = is_ok-validate_upgrade (extend b services topics video dashboard cicd) in
    let more_services = length-append b.services services in
    let more_topics = length-append b.kafka_topics topics in
    let stages = subset-append required_video_stages b.ai_video_pipeline.stages video in
    let modules = subset-append required_dashboard b.admin_dashboard_modules dashboard in
    let cicd_kept = subset-append required_cicd b.cicd_stages cicd in ground arith

default_passes : is_ok (validate_upgrade full_upgrade_blueprint) ≡ true
unfolding validate_upgrade
default_passes = refl
