-- ===== src/Maturity/Blueprint/Laws.antt =====
-- Which blueprints pass the checks.
use zlttbots.Prelude.{
  is_ok-bind, is_ok-raise_if, ◌≤◌, ◌≡◌, refl, Bool, true, not, ◌||◌, ◌&&◌, ◌==◌, String, List, [],
  ◌∷◌, map, length, all_of, is_ok, arith,
}
use zlttbots.Prelude.Int.{pos, ltb_ℤ}
use zlttbots.Maturity.Blueprint.{
  UpgradeComponent, TopicSpec, EnterpriseUpgradeV3, member, as_set, require_unique, external,
  check_dependencies, check_components, check_topics, validate,
}

-- no text comes twice
abbrev pub unique : List String → Bool
unique [] = true
unique (v ∷ vs) = not (member v vs) && unique vs

-- a component whose dependencies are all external or among the names
abbrev pub is_closed : List String → UpgradeComponent → Bool
is_closed names c = all_of (λ d. member d external || member d names) c.dependencies

abbrev pub is_sound : TopicSpec → Bool
is_sound t = ltb_ℤ (pos 0) t.partitions && ltb_ℤ (pos 0) t.retention_hours

length-as_set : (vs : List String) → length (as_set vs) ≤ length vs
unfolding as_set
length-as_set [] = omega arith
length-as_set (v ∷ vs) = let rest = length-as_set vs in ground arith

unique-as_set : (vs : List String) → (length vs == length (as_set vs)) ≡ unique vs
unfolding as_set
unique-as_set [] = refl
unique-as_set (v ∷ vs) = let rest = unique-as_set vs in let bound = length-as_set vs in ground arith

is_ok-require_unique :
    (vs : List String) (label : String) → is_ok (require_unique vs label) ≡ unique vs
unfolding require_unique
is_ok-require_unique vs label = rw is_ok-raise_if (rw unique-as_set (ground arith))

is_ok-check_dependencies :
    (names : List String) (name : String) (ds : List String)
    → is_ok (check_dependencies names name ds)
      ≡ all_of (λ d. member d external || member d names) ds
unfolding check_dependencies
is_ok-check_dependencies names name [] = refl
is_ok-check_dependencies names name (d ∷ ds) =
    simp (is_ok-bind, is_ok-raise_if, is_ok-check_dependencies names name ds) (ground arith)

is_ok-check_components :
    (names : List String) (cs : List UpgradeComponent)
    → is_ok (check_components names cs) ≡ all_of (is_closed names) cs
unfolding check_components
is_ok-check_components names [] = refl
is_ok-check_components names (c ∷ cs) = simp (
  is_ok-bind,
  is_ok-check_dependencies names c.name c.dependencies,
  is_ok-check_components names cs,
)

is_ok-check_topics : (ts : List TopicSpec) → is_ok (check_topics ts) ≡ all_of is_sound ts
unfolding check_topics
is_ok-check_topics [] = refl
is_ok-check_topics (t ∷ ts) = let rest = is_ok-check_topics ts in ground arith

-- `validate` accepts a blueprint exactly if no two components, topics or phases share a name, each
-- dependency of a component is external or one of the components, and each topic has a positive number
-- of partitions and of hours of retention.
pub validate_lem :
    (b : EnterpriseUpgradeV3)
    → is_ok (validate b) ≡ (
        unique (map (λ c. c.name) b.components)
        && unique (map (λ t. t.name) b.topics)
        && unique (map (λ p. p.name) b.phases)
        && all_of (is_closed (map (λ c. c.name) b.components)) b.components
        && all_of is_sound b.topics)
unfolding validate
validate_lem b =
    simp (is_ok-bind, is_ok-require_unique, is_ok-check_components, is_ok-check_topics)
      (ground arith)
