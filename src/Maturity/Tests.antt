-- ===== src/Maturity/Tests.antt =====
-- The building blocks of the maturity package at concrete inputs.
mod Helpers
use zlttbots.Prelude.{
  ℕ, ◌+◌, ◌<◌, ◌≡◌, refl, arith, none, some, List, [], ◌∷◌, Outcome, ok, raised, Error, value_error,
  runtime_error, min, zero, suc, ◌*◌, is_ok, false,
}
use zlttbots.Prelude.Int.{pos, ◌-ℤ◌}
use zlttbots.Maturity.Resilience.Retry.{Delays, RetryPolicy, run, delays, world_after}
use zlttbots.Maturity.Resilience.Retry.Laws.{run_succeeds, run_fails, run_total}
use zlttbots.Maturity.Resilience.Breaker.{circuit_breaker, calls, call}
use zlttbots.Maturity.Resilience.Breaker.Laws.{trips_at_threshold}
use zlttbots.Maturity.Resilience.Idempotency.{execute, keep_response}
use zlttbots.Maturity.Resilience.Idempotency.Laws.{execute_all, execute_once}
use zlttbots.Prelude.Dict.{lookup, insert}
use zlttbots.Maturity.Blueprint.{
  EnterpriseUpgradeV3, component, default_blueprint, validate, require_unique, as_set,
  check_components, check_dependencies, check_topics,
}
use zlttbots.Maturity.Blueprint.Laws.{validate_lem}
use zlttbots.Maturity.Admission.{admit, admission_controller}
use zlttbots.Maturity.Admission.Laws.{
  Call, admission, completion, serve_all, admit_isolated, InLimits, serve_all-InLimits,
}

-- delays in milliseconds
abbrev milliseconds : Delays
milliseconds = record { Delay = ℕ; doubled = λ d k. d * (k + 1); shorter = min }

abbrev policy : RetryPolicy milliseconds
policy = record { retries = pos 2; base_delay_seconds = 200; max_delay_seconds = 2000 }

-- a function whose first calls fail, as many as the world says
abbrev flaky : ℕ → Outcome ℕ × ℕ
flaky zero = (ok 7, 0)
flaky (suc n) = (raised (value_error "down"), n)

flaky_once : (k : ℕ) → k < 1 → (e : Error) × ((flaky (world_after policy flaky k 1)).0 ≡ raised e)
unfolding world_after
flaky_once zero h = (value_error "down", refl)
flaky_once (suc k) h = absurd (omega arith)

flaky_twice : (k : ℕ) → k < 2 → (e : Error) × ((flaky (world_after policy flaky k 9)).0 ≡ raised e)
unfolding world_after
flaky_twice zero h = (value_error "down", refl)
flaky_twice (suc zero) h = (value_error "down", refl)
flaky_twice (suc (suc k)) h = absurd (omega arith)

run_succeeds_example :
    run policy flaky 1
    ≡ some (ok 7, delays policy flaky 0 1, (flaky (world_after policy flaky 1 1)).1)
unfolding world_after
run_succeeds_example = run_succeeds policy flaky 2 refl 1 1 7 (omega arith) flaky_once refl

abbrev down : ℕ → Outcome ℕ × ℕ
down w = (raised (value_error "down"), w + 1)

trips_at_threshold_example :
    let (b, w') = calls down (pos 10 ∷ pos 11 ∷ []) (circuit_breaker (pos 2) (pos 30)) 0 in
    ((calls down (pos 10 ∷ []) (circuit_breaker (pos 2) (pos 30)) 0).0.opened_at ≡ none)
    × (b.opened_at ≡ some (pos 11))
    × (call down (pos 40) b w' ≡ (raised (runtime_error "Circuit breaker is open"), b, w'))
unfolding ◌-ℤ◌
trips_at_threshold_example =
    trips_at_threshold down 2 (pos 30) (λ w. (value_error "down", refl)) (pos 10 ∷ []) (pos 11)
      (pos 40) 0 refl refl

-- a counter of its calls
abbrev count : ℕ → Outcome ℕ × ℕ
count w = (ok w, w + 1)

execute_once_example :
    let (_, rs', w') = execute "k" count [] 5 in
    let (rs'', w'') = execute_all (("j", count) ∷ ("k", down) ∷ []) rs' w' in
    execute "k" down rs'' w'' ≡ (ok 5, rs'', w'')
unfolding execute keep_response lookup insert
execute_once_example = execute_once "k" count down [] 5 5 (("j", count) ∷ ("k", down) ∷ []) refl

-- a blueprint with a dependency that it does not define
abbrev dangling : EnterpriseUpgradeV3
dangling = record {
  components = component "a" "x" "high" ("b" ∷ []) ∷ [];
  topics = [];
  phases = [];
}

default_valid : validate default_blueprint ≡ ok tt
unfolding validate require_unique as_set check_components check_dependencies check_topics
default_valid = refl

-- work of both lanes
abbrev traffic : List Call
traffic =
    admission "critical"
    ∷ admission "best_effort"
    ∷ admission "batch"
    ∷ completion "critical"
    ∷ admission "critical"
    ∷ []
