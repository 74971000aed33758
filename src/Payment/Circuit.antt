-- ===== src/Payment/Circuit.antt =====
-- circuit.py: the module's variables as a record. Times are a parameter.
use zlttbots.Prelude.{ℕ, ◌+◌, Bool, true, false, ◌&&◌, leb, if◌then◌else◌}

-- `MAX_FAILURES`
abbrev pub max_failures : ℕ
max_failures = 3

pub record Clock : Type 1 where
  pub Time : Type 0
  -- `current - last_fail < RESET_AFTER_SECONDS`
  pub is_recent : Time → Time → Bool

-- `FAILS`, `OPEN` and `LAST_FAIL`
pub record Circuit (clock : Clock) : Type 0 where
  pub fails : ℕ
  pub is_open : Bool
  pub last_fail : clock.Time

module _ {clock : Clock} where
  unfoldable pub allow : clock.Time → Circuit clock → Bool × Circuit clock
  allow now c =
      if c.is_open && clock.is_recent now c.last_fail
      then (false, c)
      else (true, record c { is_open = false })

  unfoldable pub success : Circuit clock → Circuit clock
  success c = record c { fails = 0; is_open = false }

  unfoldable pub fail : clock.Time → Circuit clock → Circuit clock
  fail now c = record c {
    fails = c.fails + 1;
    last_fail = now;
    is_open = if leb max_failures (c.fails + 1) then true else c.is_open;
  }
