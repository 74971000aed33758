-- ===== src/Maturity/Resilience/Breaker.antt =====
-- `CircuitBreaker`. A time is an integer, and the interval is in the same unit.
pub mod Laws
use zlttbots.Prelude.{
  ℕ, zero, suc, ◌+◌, ◌≤◌, ◌<◌, ◌≡◌, refl, ◌≢◌, Bool, true, false, Option, none, some, List, [], ◌∷◌,
  length, Outcome, ok, raised, runtime_error, Error, arith, if◌then◌else◌, Bool-cases, inl, inr,
}
use zlttbots.Prelude.Int.{ℤ, pos, leb_ℤ, ltb_ℤ, ◌-ℤ◌, ◌≤ℤ◌}

pub record CircuitBreaker : Type 0 where
  pub failure_threshold : ℤ
  pub open_interval : ℤ
  pub failures : ℕ
  pub opened_at : Option ℤ

-- `CircuitBreaker(failure_threshold, open_interval_seconds)`
abbrev pub circuit_breaker : ℤ → ℤ → CircuitBreaker
circuit_breaker threshold interval = record {
  failure_threshold = threshold;
  open_interval = interval;
  failures = 0;
  opened_at = none;
}

unfoldable pub is_open : ℤ → CircuitBreaker → Bool
is_open now b = elim b.opened_at [ none ↦ false | some t ↦ ltb_ℤ (now -ℤ t) b.open_interval ]

-- what a call leaves, by how the function ended
unfoldable pub after_call {ℓ} : {A : Type ℓ} → ℤ → Outcome A → CircuitBreaker → CircuitBreaker
after_call now (ok a) b = record b { failures = 0; opened_at = none }
after_call now (raised e) b = record b {
  failures = b.failures + 1;
  opened_at = if leb_ℤ b.failure_threshold (pos (b.failures + 1)) then some now else b.opened_at;
}

module _ {W A : Type 0} where
  unfoldable pub call :
      (W → Outcome A × W) → ℤ → CircuitBreaker → W → Outcome A × CircuitBreaker × W
  unfolding is_open after_call
  call func now b w =
      let (result, w') = func w in
      if is_open now b
      then (raised (runtime_error "Circuit breaker is open"), b, w)
      else (result, after_call now result b, w')

  -- calls one after the other, at the given times
  unfoldable pub calls : (W → Outcome A × W) → List ℤ → CircuitBreaker → W → CircuitBreaker × W
  calls func [] b w = (b, w)
  calls func (t ∷ ts) b w = let (_, b', w') = call func t b w in calls func ts b' w'
