-- ===== src/Maturity/Operations.antt =====
-- enterprise_maturity/operations.py and governance.py: error budgets, the routing of alerts, probes,
-- change records and compatible versions. Floats are a parameter.
pub mod Laws
use zlttbots.Prelude.{
  Bool, true, false, not, ◌&&◌, ◌||◌, String, str_eq, string_eq, Option, none, some, List, [], ◌∷◌,
  Outcome, ok, raised, value_error, key_error, raise_if, ◌>>◌, ◌>>=◌, concat, truthy, if◌then◌else◌,
}
use zlttbots.Prelude.Int.{ℤ, leb_ℤ}
use zlttbots.Prelude.Dict.{Dict, insert, lookup}

-- what the error budget computes with
pub record Fractions : Type 1 where
  pub Float : Type 0
  pub zero_float : Float
  pub one_float : Float
  pub minus : Float → Float → Float
  pub divide : Float → Float → Float
  pub equal : Float → Float → Bool
  pub less : Float → Float → Bool

module _ (fr : Fractions) where
  pub record Slo : Type 0 where
    pub service : String
    pub availability_target : fr.Float
    pub p95_latency_ms : ℤ
    pub data_freshness_slo : ℤ
    pub owner : String

  pub record ErrorBudgetPolicy : Type 0 where
    pub slo : Slo

-- `max(0.0, x)`
abbrev pub at_least_zero : (fr : Fractions) → fr.Float → fr.Float
at_least_zero fr x = if fr.less fr.zero_float x then x else fr.zero_float

module _ {fr : Fractions} where
  unfoldable pub remaining_budget : fr.Float → ErrorBudgetPolicy fr → fr.Float
  remaining_budget observed_availability p =
      let allowed_error = fr.minus fr.one_float p.slo.availability_target in
      let consumed_error = at_least_zero fr (fr.minus fr.one_float observed_availability) in
      if fr.equal allowed_error fr.zero_float
      then fr.zero_float
      else at_least_zero fr (fr.minus fr.one_float (fr.divide consumed_error allowed_error))

pub data Severity : Type 0 where
  sev1 sev2 sev3 sev4 : Severity

pub record SeverityRule : Type 0 where
  pub name : String
  pub severity : Severity
  pub response_sla_minutes : ℤ
  pub primary_owner : String
  pub secondary_owner : String

-- `{rule.name: rule for rule in rules}`, with the entries so far
unfoldable pub index_rules : List SeverityRule → Dict String SeverityRule → Dict String SeverityRule
index_rules [] d = d
index_rules (r ∷ rs) d = index_rules rs (insert r.name r d)

pub record SeverityPolicy : Type 0 where
  pub rules : Dict String SeverityRule

unfoldable pub severity_policy : List SeverityRule → SeverityPolicy
unfolding index_rules
severity_policy rules = record { rules = index_rules rules [] }

abbrev pub found_rule : String → Option SeverityRule → Outcome SeverityRule
found_rule alert_name none =
    raised (key_error (concat ("Alert '" ∷ alert_name ∷ "' is unmapped" ∷ [])))
found_rule alert_name (some r) = ok r

unfoldable pub route_alert : String → SeverityPolicy → Outcome SeverityRule
route_alert alert_name p = found_rule alert_name (lookup alert_name p.rules)

pub record ProbeResult : Type 0 where
  pub name : String
  pub available : Bool
  pub latency_ms : ℤ

-- a check may raise, and change the world
pub record SyntheticProbe (W : Type 0) : Type 0 where
  pub name : String
  pub check : W → Outcome ProbeResult × W

unfoldable pub run_probe : {W : Type 0} → SyntheticProbe W → W → Outcome ProbeResult × W
run_probe p w = p.check w

pub record ChangeRecord : Type 0 where
  pub release_id : String
  pub risk_summary : String
  pub rollout_plan : String
  pub rollback_plan : String
  pub approver : String

-- `self.__dict__.items()`
abbrev pub fields_of : ChangeRecord → List (String × String)
fields_of c =
    ("release_id", c.release_id)
    ∷ ("risk_summary", c.risk_summary)
    ∷ ("rollout_plan", c.rollout_plan)
    ∷ ("rollback_plan", c.rollback_plan)
    ∷ ("approver", c.approver)
    ∷ []

unfoldable pub check_fields : List (String × String) → Outcome (Unit {0})
check_fields [] = ok tt
check_fields ((name, value) ∷ rest) =
    raise_if (not (truthy value))
      (value_error (concat (name ∷ " must be populated for high-risk change approval" ∷ [])))
    >> check_fields rest

unfoldable pub validate_change : ChangeRecord → Outcome (Unit {0})
unfolding check_fields
validate_change c = check_fields (fields_of c)

pub record ApiVersion : Type 0 where
  pub major : ℤ
  pub minor : ℤ
  pub patch : ℤ

unfoldable pub assert_backward_compatible : ApiVersion → ApiVersion → Bool → Outcome (Unit {0})
assert_backward_compatible previous proposed has_breaking_change =
    raise_if (has_breaking_change && leb_ℤ proposed.major previous.major)
      (value_error "Breaking API changes must increase major version")
    >> raise_if
        (not has_breaking_change
          && not (leb_ℤ proposed.major previous.major && leb_ℤ previous.major proposed.major))
        (value_error "Non-breaking changes cannot alter major version")
