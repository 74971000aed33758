-- ===== src/Maturity/Security.antt =====
-- enterprise_maturity/security.py: managed secrets, roles and the audit log. A time is a number of
-- microseconds; the digest of an event is a parameter.
pub mod Laws
use zlttbots.Prelude.{
  ℕ, zero, suc, ◌*◌, Bool, true, false, not, ◌||◌, ◌&&◌, String, str_eq, string_eq, Option, none,
  some, List, [], ◌∷◌, ◌++◌, map, any_of, keep_if, Outcome, ok, raised, key_error, concat,
}
use zlttbots.Prelude.Int.{ℤ, pos, leb_ℤ, ◌-ℤ◌}
use zlttbots.Prelude.Dict.{Dict, insert, lookup, values}

pub record SecretRecord : Type 0 where
  pub name : String
  pub value : String
  pub rotated_at : ℤ

pub record SecretRotationPolicy : Type 0 where
  pub max_age_days : ℕ

abbrev pub default_policy : SecretRotationPolicy
default_policy = record { max_age_days = 30 }

-- `timedelta(days=days)`
abbrev pub days_to_microseconds : ℕ → ℕ
days_to_microseconds days = days * 86400000000

unfoldable pub is_rotation_due : SecretRotationPolicy → ℤ → ℤ → Bool
is_rotation_due policy rotated_at now =
    leb_ℤ (pos (days_to_microseconds policy.max_age_days)) (now -ℤ rotated_at)

pub record SecretManager : Type 0 where
  pub policy : SecretRotationPolicy
  pub secrets : Dict String SecretRecord

abbrev pub secret_manager : Option SecretRotationPolicy → SecretManager
secret_manager none = record { policy = default_policy; secrets = [] }
secret_manager (some policy) = record { policy = policy; secrets = [] }

unfoldable pub put : String → String → ℤ → SecretManager → SecretManager
put name value rotated_at m = record m {
  secrets = insert name (record { name = name; value = value; rotated_at = rotated_at }) m.secrets;
}

unfoldable pub get : String → SecretManager → Outcome String
get name m = elim (lookup name m.secrets) [
  | none ↦
      raised (key_error (concat ("Secret '" ∷ name ∷ "' was not found in the managed store" ∷ [])))
  | some r ↦ ok r.value
]

unfoldable pub due_for_rotation : ℤ → SecretManager → List String
unfolding is_rotation_due
due_for_rotation now m =
    map (λ (r : SecretRecord). r.name)
      (keep_if (λ (r : SecretRecord). is_rotation_due m.policy r.rotated_at now) (values m.secrets))

pub record AccessToken : Type 0 where
  pub subject : String
  pub roles : List String

pub record RbacPolicy : Type 0 where
  pub permission_map : Dict String (List String)

-- whether two sets of roles meet
unfoldable pub intersects : List String → List String → Bool
intersects required roles = any_of (λ r. any_of (str_eq r) roles) required

unfoldable pub authorize : String → AccessToken → RbacPolicy → Bool
unfolding intersects
authorize route token policy = elim (lookup route policy.permission_map) [
  | none ↦ false
  | some required_roles ↦ intersects required_roles token.roles
]

pub record AuditEvent : Type 0 where
  pub actor : String
  pub action : String
  pub resource : String
  pub ip : String
  pub result : String
  pub timestamp : String

-- `digest`, for the hash of a text
abbrev pub digest : (String → String) → AuditEvent → String
digest sha256_hex e = sha256_hex (
    concat (
      e.actor ∷ "|" ∷ e.action ∷ "|" ∷ e.resource ∷ "|" ∷ e.ip ∷ "|" ∷ e.result ∷ "|" ∷ e.timestamp
      ∷ []))

pub record AuditLogPipeline : Type 0 where
  pub events : List AuditEvent

unfoldable pub emit : (String → String) → AuditEvent → AuditLogPipeline → String × AuditLogPipeline
emit sha256_hex e log = (digest sha256_hex e, record { events = log.events ++ e ∷ [] })

abbrev pub list_events : AuditLogPipeline → List AuditEvent
list_events log = log.events
