-- ===== src/Maturity/Resilience/Retry/Laws.antt =====
-- What a retry promises: the first success ends it, the last failure is the one that is raised, and
-- it always ends.
use mathlib.Core.List.{append-nil, append_assoc}
use zlttbots.Prelude.{
  ℕ, zero, suc, ◌+◌, ◌≤◌, ◌<◌, ◌≡◌, ◌∙◌, true, false, some, List, [], ◌∷◌, ◌++◌, Outcome, ok,
  raised, Error, arith, ap, Outcome-cases, Bool-cases, inl, inr,
}
use zlttbots.Prelude.Int.{ℤ, pos, leb_ℤ, pos_part}
use zlttbots.Maturity.Resilience.Retry.{
  Delays, RetryPolicy, delay_before, run_from, run, world_after, delays,
}

below_limit : (r : ℤ) (attempt : ℕ) → leb_ℤ r (pos attempt) ≡ false → attempt + 1 ≤ pos_part r
below_limit r attempt h = ground arith

module _ {ds : Delays} {W A : Type 0} (policy : RetryPolicy ds) (func : W → Outcome A × W) where
  -- the first calls of a number all raise
  abbrev pub AllRaise : ℕ → W → Type 0
  AllRaise n w = (k : ℕ) → k < n → (e : Error) × ((func (world_after policy func k w)).0 ≡ raised e)

  AllRaise-next : (n : ℕ) (w : W) → AllRaise (suc n) w → AllRaise n (func w).1
  unfolding world_after
  AllRaise-next n w h k lt = h (suc k) (omega arith)

  module _ (fuel attempt : ℕ) (slept : List ds.Delay) (w : W) where
    round_ok :
        (a : A)
        → (func w).0 ≡ ok a
        → run_from policy func (suc fuel) attempt slept w ≡ some (ok a, slept, (func w).1)
    unfolding run_from
    round_ok a h = rw (h, run_from)

    round_again :
        (e : Error)
        → (func w).0 ≡ raised e
        → leb_ℤ policy.retries (pos attempt) ≡ false
        → run_from policy func (suc fuel) attempt slept w
          ≡ run_from policy func fuel
              (attempt + 1)
              (slept ++ delay_before policy func attempt ∷ [])
              (func w).1
    unfolding run_from
    round_again e h more = rw (h, run_from) (rw more)

    round_last :
        (e : Error)
        → (func w).0 ≡ raised e
        → leb_ℤ policy.retries (pos attempt) ≡ true
        → run_from policy func (suc fuel) attempt slept w ≡ some (raised e, slept, (func w).1)
    unfolding run_from
    round_last e h last = rw (h, run_from) (rw last)

  module _ (r : ℕ) (limit : policy.retries ≡ pos r) where
    more_left : (attempt : ℕ) → attempt < r → leb_ℤ policy.retries (pos attempt) ≡ false
    more_left attempt h = rw limit (ground arith)

    none_left : (attempt : ℕ) → r ≤ attempt → leb_ℤ policy.retries (pos attempt) ≡ true
    none_left attempt h = rw limit (ground arith)

    succeeds_from :
        (n fuel attempt : ℕ) (slept : List ds.Delay) (w : W) (a : A)
        → n < fuel
        → attempt + n ≤ r
        → AllRaise n w
        → (func (world_after policy func n w)).0 ≡ ok a
        → run_from policy func fuel attempt slept w
          ≡ some
              (ok a, slept ++ delays policy func attempt n, (func (world_after policy func n w)).1)
    unfolding world_after delays
    succeeds_from n zero attempt slept w a f le h done = absurd (omega arith)
    succeeds_from zero (suc fuel) attempt slept w a f le h done =
        rw (append-nil slept) (round_ok fuel attempt slept w a done)
    succeeds_from (suc n) (suc fuel) attempt slept w a f le h done =
        let (e, fails) = h 0 (omega arith) in
        rw (round_again fuel attempt slept w e fails (more_left attempt (omega arith))) (
          succeeds_from n fuel (attempt + 1) _ (func w).1 a (omega arith) (omega arith)
            (AllRaise-next n w h) done
          ∙ rw append_assoc)

    fails_from :
        (n fuel attempt : ℕ) (slept : List ds.Delay) (w : W) (e : Error)
        → n < fuel
        → attempt + n ≡ r
        → AllRaise n w
        → (func (world_after policy func n w)).0 ≡ raised e
        → run_from policy func fuel attempt slept w
          ≡ some (
            raised e,
            slept ++ delays policy func attempt n,
            (func (world_after policy func n w)).1,
          )
    unfolding world_after delays
    fails_from n zero attempt slept w e f le h done = absurd (omega arith)
    fails_from zero (suc fuel) attempt slept w e f le h done =
        rw (append-nil slept)
          (round_last fuel attempt slept w e done (none_left attempt (omega arith)))
    fails_from (suc n) (suc fuel) attempt slept w e f le h done =
        let (e', fails) = h 0 (omega arith) in
        rw (round_again fuel attempt slept w e' fails (more_left attempt (omega arith))) (
          fails_from n fuel (attempt + 1) _ (func w).1 e (omega arith) (omega arith)
            (AllRaise-next n w h) done
          ∙ rw append_assoc)

    -- With r retries, a function whose first success is its call n + 1, n at most r, is called n + 1
    -- times: its result is returned, after the n delays before those calls.
    pub run_succeeds :
        (n : ℕ) (w : W) (a : A)
        → n ≤ r
        → AllRaise n w
        → (func (world_after policy func n w)).0 ≡ ok a
        → run policy func w
          ≡ some (ok a, delays policy func 0 n, (func (world_after policy func n w)).1)
    unfolding run
    run_succeeds n w a le h done =
        let rounds : pos_part policy.retries ≡ r = ap pos_part limit in
        rw rounds (succeeds_from n (suc r) 0 [] w a (omega arith) (omega arith) h done)

    -- With r retries, a function that raises on r + 1 calls is called no more: the error of the last
    -- call is raised, after r delays.
    pub run_fails :
        (w : W) (e : Error)
        → AllRaise r w
        → (func (world_after policy func r w)).0 ≡ raised e
        → run policy func w
          ≡ some (raised e, delays policy func 0 r, (func (world_after policy func r w)).1)
    unfolding run
    run_fails w e h done =
        let rounds : pos_part policy.retries ≡ r = ap pos_part limit in
        rw rounds (fails_from r (suc r) 0 [] w e (omega arith) (omega arith) h done)

  ends_from :
      (fuel attempt : ℕ) (slept : List ds.Delay) (w : W)
      → attempt ≤ pos_part policy.retries
      → pos_part policy.retries < attempt + fuel
      → (x : Outcome A × List ds.Delay × W) × (run_from policy func fuel attempt slept w ≡ some x)
  ends_from zero attempt slept w low h = absurd (omega arith)
  ends_from (suc fuel) attempt slept w low h = elim (Outcome-cases (func w).0) [
    | inl (a, done) ↦ ((ok a, slept, (func w).1), round_ok fuel attempt slept w a done)
    | inr (e, fails) ↦ elim (Bool-cases (leb_ℤ policy.retries (pos attempt))) [
      | inl last ↦ ((raised e, slept, (func w).1), round_last fuel attempt slept w e fails last)
      | inr more ↦ rw (round_again fuel attempt slept w e fails more) (
          ends_from fuel (attempt + 1) _ (func w).1 (below_limit policy.retries attempt more)
            (omega arith))
    ]
  ]

  -- The loop ends for every policy and every function, also for a negative number of retries.
  pub run_total : (w : W) → (x : Outcome A × List ds.Delay × W) × (run policy func w ≡ some x)
  unfolding run
  run_total w = ends_from (suc (pos_part policy.retries)) 0 [] w (omega arith) (omega arith)
