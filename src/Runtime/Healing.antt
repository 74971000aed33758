-- ===== src/Runtime/Healing.antt =====
-- enterprise_maturity/v3_runtime/deployment_pipeline.py, `ManifestSelfHealer` and
-- `NotificationBridge`. What Python does with a manifest, a dictionary of objects, is a parameter.
use zlttbots.Prelude.{
  Bool, not, ◌||◌, String, str_eq, Option, none, some, [], ◌∷◌, ◌++◌, Outcome, ok, value_error,
  raise_if, ◌>>◌, truthy, concat, if◌then◌else◌,
}
use zlttbots.Prelude.Dict.{Dict}

pub record Manifests : Type 1 where
  pub Manifest : Type 0
  -- `a == b`
  pub equal : Manifest → Manifest → Bool
  -- `not a`
  pub is_empty : Manifest → Bool
  -- `json.loads(json.dumps(a))`, which raises on what is no JSON
  pub json_copy : Manifest → Outcome Manifest

module _ (ms : Manifests) where
  pub record ManifestDrift : Type 0 where
    pub kind : String
    pub name : String
    pub desired : ms.Manifest
    pub current : ms.Manifest

abbrev pub is_supported : String → Bool
is_supported kind = str_eq kind "docker" || str_eq kind "helm"

module _ {ms : Manifests} where
  unfoldable pub validate_drift : ManifestDrift ms → Outcome (Unit {0})
  validate_drift d = do
    raise_if (not (is_supported d.kind)) (value_error "kind must be 'docker' or 'helm'")
    raise_if (not (truthy d.name)) (value_error "name must not be empty")
    raise_if (ms.is_empty d.desired) (value_error "desired manifest cannot be empty")
    raise_if (ms.is_empty d.current) (value_error "current manifest cannot be empty")
    ok tt

  -- `detect_drift(kind, name, desired, current)`, the arguments as a record
  unfoldable pub detect_drift : ManifestDrift ms → Outcome (Option (ManifestDrift ms))
  unfolding validate_drift
  detect_drift d = do validate_drift d; ok (if ms.equal d.desired d.current then none else some d)

  unfoldable pub heal : ManifestDrift ms → Outcome ms.Manifest
  unfolding validate_drift
  heal d = do
    validate_drift d
    raise_if (not (is_supported d.kind))
        (value_error (concat ("unsupported manifest kind: " ∷ d.kind ∷ [])))
    ms.json_copy d.desired

pub record NotificationBridge : Type 0 where
  pub telegram_enabled : Bool
  pub discord_enabled : Bool

-- `{"message": message, "metadata": metadata}`
pub record Notification (M : Type 0) : Type 0 where
  pub message : String
  pub metadata : M

unfoldable pub format_auto_fix_notification :
    {M : Type 0} → NotificationBridge → String → M → Outcome (Dict String (Notification M))
format_auto_fix_notification {M = M} b message metadata = do
  raise_if (not (truthy message)) (value_error "message must not be empty")
  let payload : Notification M = record { message = message; metadata = metadata } in
      ok (
        (if b.telegram_enabled then ("telegram", payload) ∷ [] else [])
        ++ (if b.discord_enabled then ("discord", payload) ∷ [] else []))
