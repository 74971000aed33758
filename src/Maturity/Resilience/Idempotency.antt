-- ===== src/Maturity/Resilience/Idempotency.antt =====
-- `IdempotencyStore`. The responses are the store; the world is the one that the actions change.
pub mod Laws
use zlttbots.Prelude.{String, Option, none, some, List, [], ◌∷◌, Outcome, ok, raised, string_eq}
use zlttbots.Prelude.Dict.{Dict, lookup, insert}

-- `self._responses`
abbrev pub Responses : Type 0 → Type 0
Responses V = Dict String V

module _ {W V : Type 0} where
  -- what an action that has been called leaves
  unfoldable pub keep_response : String → Responses V → Outcome V × W → Outcome V × Responses V × W
  keep_response key rs (ok v, w) = (ok v, insert key v rs, w)
  keep_response key rs (raised e, w) = (raised e, rs, w)

  unfoldable pub execute :
      String → (W → Outcome V × W) → Responses V → W → Outcome V × Responses V × W
  unfolding keep_response
  execute key action rs w = elim (lookup key rs) [
    | some v ↦ (ok v, rs, w)
    | none ↦ keep_response key rs (action w)
  ]
