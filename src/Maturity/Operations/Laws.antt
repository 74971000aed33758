-- ===== src/Maturity/Operations/Laws.antt =====
-- Where an alert goes, and which chains of releases are compatible.
use zlttbots.Prelude.{
  ℕ, suc, ◌+◌, ◌≤◌, ◌≡◌, refl, ◌∙◌, Bool, true, false, not, ◌&&◌, String, str_eq, string_eq, Option,
  none, some, List, [], ◌∷◌, is_ok, is_ok-bind, is_ok-raise_if, arith, ap, if◌then◌else◌,
}
use zlttbots.Prelude.Int.{pos_part, neg_part, leb_ℤ}
use zlttbots.Prelude.Dict.{Dict, insert, lookup, lookup-insert}
use zlttbots.Maturity.Operations.{
  SeverityRule, index_rules, severity_policy, route_alert, found_rule, ApiVersion,
  assert_backward_compatible,
}

-- the last rule with a name, or the one that was there
abbrev pub last_rule : String → List SeverityRule → Option SeverityRule → Option SeverityRule
last_rule name [] known = known
last_rule name (r ∷ rs) known = last_rule name rs (if str_eq r.name name then some r else known)

lookup-index_rules :
    (name : String) (rs : List SeverityRule) (d : Dict String SeverityRule)
    → lookup name (index_rules rs d) ≡ last_rule name rs (lookup name d)
unfolding index_rules
lookup-index_rules name [] d = refl
lookup-index_rules name (r ∷ rs) d =
    lookup-index_rules name rs (insert r.name r d)
    ∙ ap (last_rule name rs) (lookup-insert r.name name r d)

-- An alert goes to the last rule with its name, and raises where there is none.
pub route_alert_lem :
    (name : String) (rules : List SeverityRule)
    → route_alert name (severity_policy rules) ≡ found_rule name (last_rule name rules none)
unfolding route_alert severity_policy lookup
route_alert_lem name rules = ap (found_rule name) (lookup-index_rules name rules [])

-- from each version to the next one the check passes
unfoldable pub released : ApiVersion → List (ApiVersion × Bool) → Bool
released v [] = true
released v ((next, breaking) ∷ rest) =
    is_ok (assert_backward_compatible v next breaking) && released next rest

abbrev pub latest : ApiVersion → List (ApiVersion × Bool) → ApiVersion
latest v [] = v
latest v ((next, breaking) ∷ rest) = latest next rest

abbrev pub count_breaking : List (ApiVersion × Bool) → ℕ
count_breaking [] = 0
count_breaking ((next, true) ∷ rest) = suc (count_breaking rest)
count_breaking ((next, false) ∷ rest) = count_breaking rest

passes :
    (v next : ApiVersion) (breaking : Bool)
    → is_ok (assert_backward_compatible v next breaking) ≡ (
        not (breaking && leb_ℤ next.major v.major)
        && not (not breaking && not (leb_ℤ next.major v.major && leb_ℤ v.major next.major)))
unfolding assert_backward_compatible
passes v next breaking = simp (is_ok-bind, is_ok-raise_if)

-- Over any chain of releases that pass the check, the major version grows by at least the number of
-- releases with a breaking change.
pub released_grows :
    (v : ApiVersion) (chain : List (ApiVersion × Bool))
    → released v chain ≡ true
    → pos_part v.major + neg_part (latest v chain).major + count_breaking chain
      ≤ pos_part (latest v chain).major + neg_part v.major
unfolding released
released_grows v [] h = omega arith
released_grows v ((next, true) ∷ rest) h =
    let step = passes v next true in let later = released_grows next rest in ground arith
released_grows v ((next, false) ∷ rest) h =
    let step = passes v next false in let later = released_grows next rest in ground arith
