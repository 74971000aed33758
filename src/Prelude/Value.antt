-- ===== src/Prelude/Value.antt =====
-- The values of Python's `object`: what a payload, a manifest or a piece of metadata holds. Floats are
-- not among them: none of the modelled code builds one into such a value.
use zlttbots.Prelude.{Bool, String}
use zlttbots.Prelude.Int.{ℤ}
use zlttbots.Prelude.Dict.{Dict}

mutual
  pub data Value : Type 0 where
    null : Value
    bool : Bool → Value
    int : ℤ → Value
    text : String → Value
    list : Items → Value
    dict : Fields → Value

  pub data Items : Type 0 where
    nil : Items
    cons : Value → Items → Items

  pub data Fields : Type 0 where
    end : Fields
    field : String → Value → Fields → Fields

-- `dict[str, object]`
abbrev pub Payload : Type 0
Payload = Dict String Value
