-- ===== src/Payment/Tests.antt =====
-- The payment adapter at concrete inputs: a platform that is down, with a counter of requests as its
-- world and the same counter as the time in seconds.
use zlttbots.Prelude.{ℕ, ◌+◌, ◌-◌, ◌≡◌, refl, arith, false, ltb, [], ok, none}
use zlttbots.Prelude.Int.{pos}
use zlttbots.Payment.Circuit.{Clock, allow}
use zlttbots.Payment.Adapter.{Reply, response, State, circuit_open, gave_up, send}
use zlttbots.Payment.Adapter.Laws.{world_after, send_cuts_off}

abbrev seconds : Clock
seconds = record { Time = ℕ; is_recent = λ now last. ltb (now - last) 30 }

abbrev down : ℕ → Reply ℕ × ℕ
down w = (response (pos 503) none, w + 1)

abbrev fresh : State seconds
fresh = record {
  circuit = record { fails = 0; is_open = false; last_fail = 0 };
  audit = [];
  slept = [];
}

abbrev clock_of : ℕ → ℕ
clock_of w = w

send_cuts_off_example :
    let (result, s', w') = send {clock = seconds} clock_of down (pos 3) fresh 100 in
    let (result', _, w'') = send {clock = seconds} clock_of down (pos 1) s' 120 in
    (result ≡ ok gave_up) × (w' ≡ 103) × (result' ≡ ok circuit_open) × (w'' ≡ 120)
unfolding world_after allow
send_cuts_off_example =
    send_cuts_off {clock = seconds} clock_of down 2 0 fresh 100 120 (omega arith) refl
      (λ k lt. refl) refl
