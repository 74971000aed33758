-- ===== src/Maturity/Resilience/Retry.antt =====
-- `RetryPolicy.run`. A delay is a value of a type of its own, with the two operations that the code
-- applies to it; the delays slept are kept in a list. The loop goes round on fuel.
pub mod Laws
use zlttbots.Prelude.{
  ℕ, zero, suc, ◌+◌, Option, none, some, List, [], ◌∷◌, ◌++◌, Outcome, ok, raised, if◌then◌else◌,
}
use zlttbots.Prelude.Int.{ℤ, pos, pos_part, leb_ℤ}

pub record Delays : Type 1 where
  pub Delay : Type 0
  -- `delay * (2**attempt)`
  pub doubled : Delay → ℕ → Delay
  -- `min(a, b)`
  pub shorter : Delay → Delay → Delay

module _ (ds : Delays) where
  pub record RetryPolicy : Type 0 where
    pub retries : ℤ
    pub base_delay_seconds : ds.Delay
    pub max_delay_seconds : ds.Delay

module _ {ds : Delays} {W A : Type 0} (policy : RetryPolicy ds) (func : W → Outcome A × W) where
  unfoldable pub delay_before : ℕ → ds.Delay
  delay_before attempt =
      ds.shorter (ds.doubled policy.base_delay_seconds attempt) policy.max_delay_seconds

  -- the loop from one attempt on, with the delays slept so far; `none` is the fuel at its end
  unfoldable pub run_from : ℕ → ℕ → List ds.Delay → W → Option (Outcome A × List ds.Delay × W)
  run_from zero attempt slept w = none
  run_from (suc fuel) attempt slept w =
      let (result, w') = func w in
      let again = run_from fuel (attempt + 1) (slept ++ delay_before attempt ∷ []) w' in
      elim result [
        | ok a ↦ some (ok a, slept, w')
        | raised e ↦
            if leb_ℤ policy.retries (pos attempt) then some (raised e, slept, w') else again
      ]

  -- One round for each retry, one for the first attempt.
  unfoldable pub run : W → Option (Outcome A × List ds.Delay × W)
  unfolding run_from
  run w = run_from (suc (pos_part policy.retries)) 0 [] w

  -- The world after a number of calls of the function.
  unfoldable pub world_after : ℕ → W → W
  world_after zero w = w
  world_after (suc n) w = world_after n (func w).1

  -- the delays before the attempts n + 1 to n + k
  unfoldable pub delays : ℕ → ℕ → List ds.Delay
  delays n zero = []
  delays n (suc k) = delay_before n ∷ delays (n + 1) k
