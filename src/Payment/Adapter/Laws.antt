-- ===== src/Payment/Adapter/Laws.antt =====
-- What the circuit saves the platform from: requests after a send that failed often enough.
use zlttbots.Prelude.{
  ℕ, zero, suc, ◌+◌, ◌≤◌, ◌<◌, ◌≡◌, refl, Bool, true, false, ◌||◌, ok, arith, ap, ◌∙◌, none,
}
use zlttbots.Prelude.Int.{pos, ltb_ℤ}
use zlttbots.Payment.Circuit.{Clock, Circuit, max_failures, allow, fail}
use zlttbots.Payment.Adapter.{
  Reply, circuit_open, gave_up, State, is_success, is_error, answer_of, note_success, response,
  failed, note_failure, attempts, send,
}

module _ {J W : Type 0} (request : W → Reply J × W) where
  -- the world after a number of requests
  unfoldable pub world_after : ℕ → W → W
  world_after zero w = w
  world_after (suc n) w = world_after n (request w).1

  -- none of the first requests of a number has the status 200
  abbrev pub AllFail : ℕ → W → Type 0
  AllFail n w = (k : ℕ) → k < n → is_success (request (world_after k w)).0 ≡ false

  AllFail-rest : (n : ℕ) (w : W) → AllFail (suc n) w → AllFail n (request w).1
  unfolding world_after
  AllFail-rest n w h k lt = h (suc k) (omega arith)

no_answer : {J : Type 0} (r : Reply J) → is_success r ≡ false → answer_of r ≡ none
no_answer (response status body) h = rw h refl
no_answer failed h = refl

module _ {clock : Clock} where
  unnoted :
      {J : Type 0} (r : Reply J) (s : State clock) → is_success r ≡ false → note_success r s ≡ s
  unfolding note_success
  unnoted r s h = rw h refl

  allow_refuses :
      (t : clock.Time) (c : Circuit clock)
      → c.is_open ≡ true
      → clock.is_recent t c.last_fail ≡ true
      → allow t c ≡ (false, c)
  unfolding allow
  allow_refuses t c o r = rw o (rw r refl)

module _ {clock : Clock} {J W : Type 0} (now : W → clock.Time) (request : W → Reply J × W) where
  -- the circuit after as many failures
  unfoldable failed_after : ℕ → Circuit clock → W → Circuit clock
  failed_after zero c w = c
  failed_after (suc n) c w = failed_after n (fail (now (request w).1) c) (request w).1

  attempts_fail :
      (n attempt : ℕ) (error : Bool) (s : State clock) (w : W)
      → AllFail request n w
      → let (result, s', w') = attempts now request n attempt error s w in
        (result ≡ gave_up)
        × (s'.circuit ≡ failed_after n s.circuit w)
        × (w' ≡ world_after request n w)
  unfolding attempts failed_after world_after note_failure
  attempts_fail zero attempt true s w h = (refl, refl, refl)
  attempts_fail zero attempt false s w h = (refl, refl, refl)
  attempts_fail (suc n) attempt error s w h =
      let first = h 0 (omega arith) in
      let silent = no_answer (request w).0 first in
      let same = unnoted (request w).0 s first in
      rw (silent, attempts)
        (rw same (
          attempts_fail n (attempt + 1) (error || is_error (request w).0)
            (note_failure attempt (now (request w).1) s) (request w).1
            (AllFail-rest request n w h)))

  failed_after_open :
      (n : ℕ) (c : Circuit clock) (w : W)
      → max_failures ≤ c.fails + suc n
      → ((failed_after (suc n) c w).is_open ≡ true)
        × ((failed_after (suc n) c w).last_fail ≡ now (world_after request (suc n) w))
  unfolding failed_after world_after fail
  failed_after_open zero c w h = (ground arith, refl)
  failed_after_open (suc n) c w h =
      failed_after_open n (fail (now (request w).1) c) (request w).1 (omega arith)

  send_allowed :
      (n : ℕ) (s : State clock) (w : W)
      → (allow (now w) s.circuit).0 ≡ true
      → send now request (pos (suc n)) s w ≡ (
          let (result, s', w') =
            attempts now request
              (suc n)
              0
              false
              (record s { circuit = (allow (now w) s.circuit).1 })
              w in
          (ok result, s', w'))
  unfolding send
  send_allowed n s w h =
      let enough : ltb_ℤ (pos (suc n)) (pos 1) ≡ false = ground arith in rw h (rw enough refl)

  send_refused :
      (m : ℕ) (s : State clock) (w : W)
      → allow (now w) s.circuit ≡ (false, s.circuit)
      → ((send now request (pos (suc m)) s w).0 ≡ ok circuit_open)
        × ((send now request (pos (suc m)) s w).2 ≡ w)
  unfolding send
  send_refused m s w h =
      let enough : ltb_ℤ (pos (suc m)) (pos 1) ≡ false = ground arith in
      rw h (rw enough (refl, refl))

  -- A send that the circuit lets through, with n + 1 attempts, three or more, none of which is
  -- answered with the status 200: it gives up after that many requests. A later send, with any positive number of attempts, less than the reset
  -- time after the last failure, makes no request: it answers that the circuit is open, and the world
  -- stays as it is.
  pub send_cuts_off :
      (n m : ℕ) (s : State clock) (w later : W)
      → max_failures ≤ suc n
      → (allow (now w) s.circuit).0 ≡ true
      → AllFail request (suc n) w
      → clock.is_recent (now later) (now (world_after request (suc n) w)) ≡ true
      → let (result, s', w') = send now request (pos (suc n)) s w in
        let (result', _, w'') = send now request (pos (suc m)) s' later in
        (result ≡ ok gave_up)
        × (w' ≡ world_after request (suc n) w)
        × (result' ≡ ok circuit_open)
        × (w'' ≡ later)
  send_cuts_off n m s w later h allowed fails recent =
      let c = (allow (now w) s.circuit).1 in
      let (gives, trips, world) =
        attempts_fail (suc n) 0 false (record s { circuit = c }) w fails in
      let (opens, when) = failed_after_open n c w (omega arith) in
      let open_now = ap (λ x. x.is_open) trips ∙ opens in
      let last = ap (λ x. x.last_fail) trips ∙ when in
      rw (send_allowed n s w allowed) (
        let (result', world') =
          send_refused m _ later (
            allow_refuses (now later) _ open_now
              (ap (clock.is_recent (now later)) last ∙ recent)) in
        (ap (λ r. ok r) gives, world, result', world'))
