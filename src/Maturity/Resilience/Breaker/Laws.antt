-- ===== src/Maturity/Resilience/Breaker/Laws.antt =====
-- The circuit breaker: it opens at the failure that reaches its threshold and not before, and while
-- it is open nothing is called.
use zlttbots.Prelude.{
  ℕ, suc, ◌+◌, ◌<◌, ◌≡◌, ◌∙◌, true, none, some, List, [], ◌∷◌, ◌++◌, length, Outcome, raised,
  runtime_error, Error, arith, ap,
}
use zlttbots.Prelude.Int.{ℤ, pos, ltb_ℤ, ◌-ℤ◌}
use zlttbots.Maturity.Resilience.Breaker.{
  CircuitBreaker, circuit_breaker, is_open, after_call, call, calls,
}

-- a breaker that has not opened, after a number of failures
abbrev pub closed : ℕ → ℤ → ℕ → CircuitBreaker
closed k interval n = record {
  failure_threshold = pos k;
  open_interval = interval;
  failures = n;
  opened_at = none;
}

module _ {W A : Type 0} (func : W → Outcome A × W) where
  call_open :
      (now t : ℤ) (b : CircuitBreaker) (w : W)
      → b.opened_at ≡ some t
      → ltb_ℤ (now -ℤ t) b.open_interval ≡ true
      → call func now b w ≡ (raised (runtime_error "Circuit breaker is open"), b, w)
  unfolding call is_open
  call_open now t b w e h = ground arith

module _ {W A : Type 0} (func : W → Outcome A × W) (k : ℕ) (interval : ℤ)
    (fails : (w : W) → (e : Error) × ((func w).0 ≡ raised e)) where
  fails_below :
      (n : ℕ) (now : ℤ) (w : W)
      → suc n < k
      → call func now (closed k interval n) w ≡ ((func w).0, closed k interval (suc n), (func w).1)
  unfolding call is_open after_call
  fails_below n now w h = let (e, raises) = fails w in rw (raises, after_call) (ground arith)

  fails_last :
      (n : ℕ) (now : ℤ) (w : W)
      → suc n ≡ k
      → call func now (closed k interval n) w
        ≡ ((func w).0, record (closed k interval (suc n)) { opened_at = some now }, (func w).1)
  unfolding call is_open after_call
  fails_last n now w h = let (e, raises) = fails w in rw (raises, after_call) (ground arith)

  -- calls that all fail, from n failures on, fewer than the threshold
  stays_closed_from :
      (ts : List ℤ) (n m : ℕ) (w : W)
      → n + length ts ≡ m
      → m < k
      → (calls func ts (closed k interval n) w).0 ≡ closed k interval m
  unfolding calls
  stays_closed_from [] n m w e h = let same : n ≡ m = omega arith in rw same
  stays_closed_from (t ∷ ts) n m w e h =
      rw (fails_below n t w (omega arith), calls)
        (stays_closed_from ts (suc n) m (func w).1 (omega arith) h)

  trips_from :
      (ts : List ℤ) (n : ℕ) (t : ℤ) (w : W)
      → n + suc (length ts) ≡ k
      → (calls func (ts ++ t ∷ []) (closed k interval n) w).0
        ≡ record (closed k interval k) { opened_at = some t }
  unfolding calls
  trips_from [] n t w e =
      let last : suc n ≡ k = omega arith in rw (fails_last n t w last, calls) (rw last)
  trips_from (s ∷ ts) n t w e =
      rw (fails_below n s w (omega arith), calls) (trips_from ts (suc n) t (func w).1 (omega arith))

  -- A new breaker with the threshold k, over a function that always raises: fewer than k calls leave
  -- it closed; the k-th call opens it, at its time t; and a call less than the interval after t raises
  -- at once, calls nothing and changes nothing.
  pub trips_at_threshold :
      (ts : List ℤ) (t now : ℤ) (w : W)
      → suc (length ts) ≡ k
      → ltb_ℤ (now -ℤ t) interval ≡ true
      → let (b, w') = calls func (ts ++ t ∷ []) (circuit_breaker (pos k) interval) w in
        ((calls func ts (circuit_breaker (pos k) interval) w).0.opened_at ≡ none)
        × (b.opened_at ≡ some t)
        × (call func now b w' ≡ (raised (runtime_error "Circuit breaker is open"), b, w'))
  trips_at_threshold ts t now w e soon =
      let opens = trips_from ts 0 t w (omega arith) in
      (
        ap (λ b. b.opened_at) (stays_closed_from ts 0 (length ts) w (omega arith) (omega arith)),
        ap (λ b. b.opened_at) opens,
        call_open func now t _ _ (ap (λ b. b.opened_at) opens)
            (ap (λ b. ltb_ℤ (now -ℤ t) b.open_interval) opens ∙ soon),
      )
