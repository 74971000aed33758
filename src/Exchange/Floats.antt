-- ===== src/Exchange/Floats.antt =====
-- What services/exchange/src uses of Python's floats.
use zlttbots.Prelude.{Bool, String}

pub record Floats : Type 1 where
  pub Float : Type 0
  pub zero_float : Float
  pub one_float : Float
  pub negate : Float → Float
  pub minus : Float → Float → Float
  pub less : Float → Float → Bool
  pub equal : Float → Float → Bool
  -- f"{x:.6f}"
  pub show_6 : Float → String
