-- ===== src/Maturity/Resilience/Idempotency/Laws.antt =====
-- A key's first response is its response for good.
use zlttbots.Prelude.{
  String, ◌≡◌, refl, some, List, [], ◌∷◌, Outcome, ok, raised, arith, Option-cases, sym, ◌∙◌,
  Outcome-cases, inl, inr, ap, eq_iff, string_eq,
}
use zlttbots.Prelude.Dict.{lookup, lookup-insert, lookup-insert_self}
use zlttbots.Maturity.Resilience.Idempotency.{Responses, keep_response, execute}

module _ {W V : Type 0} where
  -- requests, one after the other: each a key with its action
  unfoldable pub execute_all :
      List (String × (W → Outcome V × W)) → Responses V → W → Responses V × W
  execute_all [] rs w = (rs, w)
  execute_all ((key, action) ∷ requests) rs w =
      let (_, rs', w') = execute key action rs w in execute_all requests rs' w'

  known :
      (key : String) (action : W → Outcome V × W) (rs : Responses V) (w : W) (v : V)
      → lookup key rs ≡ some v
      → execute key action rs w ≡ (ok v, rs, w)
  unfolding execute
  known key action rs w v h = rw (h, execute)

  execute-keeps :
      (j key : String) (action : W → Outcome V × W) (rs : Responses V) (w : W) (v : V)
      → lookup key rs ≡ some v
      → lookup key (execute j action rs w).1 ≡ some v
  unfolding execute keep_response
  execute-keeps j key action rs w v h = elim (Option-cases (lookup j rs)) [
    | inr (u, found) ↦ rw (known j action rs w u found) h
    | inl missing ↦ elim (Outcome-cases (action w).0) [
      | inl (u, done) ↦
          rw (missing, execute)
            (rw (done, keep_response) (ground (arith, lookup-insert j key u rs, eq_iff j key)))
      | inr (e, fails) ↦ rw (missing, execute) (rw (fails, keep_response) h)
    ]
  ]

  execute_all-keeps :
      (requests : List (String × (W → Outcome V × W))) (key : String) (rs : Responses V) (w : W)
      (v : V)
      → lookup key rs ≡ some v
      → lookup key (execute_all requests rs w).0 ≡ some v
  unfolding execute_all
  execute_all-keeps [] key rs w v h = h
  execute_all-keeps ((j, action) ∷ requests) key rs w v h =
      execute_all-keeps requests key _ _ v (execute-keeps j key action rs w v h)

  stored_response :
      (key : String) (rs : Responses V) (x : Outcome V × W) (v : V)
      → (keep_response key rs x).0 ≡ ok v
      → lookup key (keep_response key rs x).1 ≡ some v
  unfolding keep_response
  stored_response key rs (ok u, w) v h = ground (arith, lookup-insert_self key u rs)
  stored_response key rs (raised e, w) v h = ground arith

  stored :
      (key : String) (action : W → Outcome V × W) (rs : Responses V) (w : W) (v : V)
      → (execute key action rs w).0 ≡ ok v
      → lookup key (execute key action rs w).1 ≡ some v
  unfolding execute
  stored key action rs w v h = elim (Option-cases (lookup key rs)) [
    | inr (u, found) ↦
        let same = known key action rs w u found in
        ap (λ x. lookup key x.1) same ∙ found ∙ ground (arith, sym (ap (λ x. x.0) same) ∙ h)
    | inl missing ↦
        let called : execute key action rs w ≡ keep_response key rs (action w) =
          rw (missing, execute) refl in
        ap (λ x. lookup key x.1) called
        ∙ stored_response key rs (action w) v (sym (ap (λ x. x.0) called) ∙ h)
  ]

  -- Once a key has been answered with v, then whatever requests follow, with whatever outcome, the
  -- same key is answered with v whatever the action is, which is not called: neither the store nor the
  -- world changes.
  pub execute_once :
      (key : String) (action action' : W → Outcome V × W) (rs : Responses V) (w : W) (v : V)
      (requests : List (String × (W → Outcome V × W)))
      → (execute key action rs w).0 ≡ ok v
      → let (_, rs', w') = execute key action rs w in
        let (rs'', w'') = execute_all requests rs' w' in
        execute key action' rs'' w'' ≡ (ok v, rs'', w'')
  execute_once key action action' rs w v requests h =
      known key action' _ _ v (execute_all-keeps requests key _ _ v (stored key action rs w v h))
