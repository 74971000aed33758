-- ===== src/Payment/Adapter.antt =====
-- adapter.py, `send`. The world is what a request changes, and it holds the time; the audit log and the
-- seconds slept are kept in lists.
pub mod Laws
use zlttbots.Prelude.{
  ℕ, zero, suc, ◌+◌, ◌^◌, Bool, true, false, not, ◌&&◌, ◌||◌, ◌==◌, Option, none, some, List, [],
  ◌∷◌, ◌++◌, Outcome, ok, raised, value_error, if◌then◌else◌,
}
use zlttbots.Prelude.Int.{ℤ, pos, pos_part, ltb_ℤ, leb_ℤ}
use zlttbots.Payment.Circuit.{Clock, Circuit, allow, success, fail}

-- a response with its status and its body, none for a body that is no JSON, or a RequestException
pub data Reply (J : Type 0) : Type 0 where
  response : ℤ → Option J → Reply J
  failed : Reply J

-- what `send` returns, if it does not raise
pub data Result (J : Type 0) : Type 0 where
  circuit_open : Result J
  answered : J → Result J
  gave_up : Result J

pub data AuditEvent : Type 0 where
  payment_circuit_open : AuditEvent
  payment_success : AuditEvent
  payment_fail : AuditEvent
  payment_request_error : AuditEvent

pub record State (clock : Clock) : Type 0 where
  pub circuit : Circuit clock
  pub audit : List AuditEvent
  pub slept : List ℕ

-- `status_code == 200`
abbrev pub is_success : {J : Type 0} → Reply J → Bool
is_success (response status body) = leb_ℤ status (pos 200) && leb_ℤ (pos 200) status
is_success failed = false

-- `response.json()` for the status 200; none if it is not called or raises
abbrev pub answer_of : {J : Type 0} → Reply J → Option J
answer_of (response status body) = if is_success (response status body) then body else none
answer_of failed = none

-- an attempt that raises a RequestException, as `response.json()` does for a body that is no JSON
abbrev pub is_error : {J : Type 0} → Reply J → Bool
is_error (response status (some body)) = false
is_error (response status none) = leb_ℤ status (pos 200) && leb_ℤ (pos 200) status
is_error failed = true

module _ {clock : Clock} where
  -- what a failed attempt leaves
  unfoldable pub note_failure : ℕ → clock.Time → State clock → State clock
  note_failure attempt t s = record {
    circuit = fail t s.circuit;
    audit = s.audit ++ payment_fail ∷ [];
    slept = s.slept ++ 2 ^ attempt ∷ [];
  }

module _ {clock : Clock} {J : Type 0} where
  -- what a reply leaves before its body is read: the status 200 closes the circuit
  unfoldable pub note_success : Reply J → State clock → State clock
  note_success reply s =
      if is_success reply
      then record s { circuit = success s.circuit; audit = s.audit ++ payment_success ∷ [] }
      else s

module _ {clock : Clock} {J W : Type 0} (now : W → clock.Time) (request : W → Reply J × W) where
  -- the loop: the attempts left, the number of the next one, whether an attempt raised
  unfoldable pub attempts : ℕ → ℕ → Bool → State clock → W → Result J × State clock × W
  unfolding note_success
  attempts zero attempt error s w = (
    gave_up,
    (if error then record s { audit = s.audit ++ payment_request_error ∷ [] } else s),
    w,
  )
  attempts (suc left) attempt error s w =
      let (reply, w') = request w in
      let s' = note_success reply s in
      let again =
        attempts left (attempt + 1) (error || is_error reply) (note_failure attempt (now w') s')
          w' in
      elim (answer_of reply) [ none ↦ again | some body ↦ (answered body, s', w') ]

  unfoldable pub send : ℤ → State clock → W → Outcome (Result J) × State clock × W
  unfolding attempts
  send retries s w =
      let (allowed, circuit) = allow (now w) s.circuit in
      let s' : State clock = record s { circuit = circuit } in
      let (result, s'', w') = attempts (pos_part retries) 0 false s' w in
      if ltb_ℤ retries (pos 1)
      then (raised (value_error "retries must be at least 1"), s, w)
      else if not allowed
      then (ok circuit_open, record s' { audit = s'.audit ++ payment_circuit_open ∷ [] }, w)
      else (ok result, s'', w')
