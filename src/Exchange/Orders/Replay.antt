-- ===== src/Exchange/Orders/Replay.antt =====
-- A nonce that has placed an order places no other.
use zlttbots.Prelude.{
  Option, ◌∷◌, [], ◌≡◌, refl, Bool, true, false, String, none, some, Outcome, ok, raised,
  Bool-cases, inl, inr, Option-cases, string_eq, ◌⊎◌, List, subst, arith, sym,
}
use zlttbots.Exchange.Floats.{Floats}
use zlttbots.Exchange.Book.{OrderBook, Order, new_order, add, match_orders, Trade}
use zlttbots.Exchange.Limits.{seen, check_replay, rate_limit}
use zlttbots.Exchange.Limits.Laws.{check_replay-keeps, accepted_seen, seen_refused}
use zlttbots.Exchange.Orders.{
  OrderRequest, Exchange, Response, refused, placed, Answer, place_order, place_signed, place,
  place_all, answer_of, match_added,
}

module _ {fl : Floats} where
  -- what holds of an answer, if there is one
  abbrev Holds {κ} : (Outcome (Response fl) × Exchange fl → Type κ) → Answer fl → Type κ
  Holds P none = Unit
  Holds P (some y) = P y

  -- the nonce has been seen
  abbrev Seen : String → Exchange fl → Type 0
  Seen n x = seen n x.nonces ≡ true

  -- an order is placed only with a nonce that is seen from then on
  abbrev Spends : String → Outcome (Response fl) × Exchange fl → Type 0
  Spends n (ok (placed id trades), x) = Seen n x
  Spends n (ok (refused why), x) = Unit
  Spends n (raised e, x) = Unit

  module _ (n : String) where
    answer_keeps :
        (o : Order fl) (x : Exchange fl) (m : Option (Outcome (List (Trade fl)) × OrderBook fl))
        → Seen n x
        → Holds (λ y. Seen n y.1) (answer_of o x m)
    unfolding answer_of
    answer_keeps o x none p = tt
    answer_keeps o x (some (raised e, b)) p = p
    answer_keeps o x (some (ok trades, b)) p = p

    added_keeps :
        (o : Order fl) (a : Outcome (Unit {0}) × OrderBook fl) (x : Exchange fl)
        → Seen n x
        → Holds (λ y. Seen n y.1) (match_added o a x)
    unfolding match_added
    added_keeps o (raised e, b) x p = p
    added_keeps o (ok u, b) x p = answer_keeps o x (match_orders b) p

    order_keeps :
        (o : Outcome (Order fl)) (x : Exchange fl)
        → Seen n x
        → Holds (λ y. Seen n y.1) (place_order o x)
    unfolding place_order
    order_keeps (raised e) x p = p
    order_keeps (ok o) x p = added_keeps o (add o x.orderbook) x p

    signed_keeps :
        (s : Outcome Bool) (r : OrderRequest fl) (x : Exchange fl)
        → Seen n x
        → Holds (λ y. Seen n y.1) (place_signed s r x)
    unfolding place_signed
    signed_keeps (raised e) r x p = p
    signed_keeps (ok false) r x p = p
    signed_keeps (ok true) r x p = order_keeps (new_order r.side r.price r.qty none r.ts) x p

    module _ (verify : String → String → String → Outcome Bool) where
      place-keeps :
          (r : OrderRequest fl) (x : Exchange fl)
          → Seen n x
          → Holds (λ y. Seen n y.1) (place verify r x)
      unfolding place
      place-keeps r x p =
          let (allowed, rate) = rate_limit fl r.now r.client_ip x.rate in
          let (fresh, nonces) = check_replay r.nonce x.nonces in
          let kept : seen n nonces ≡ true = check_replay-keeps n r.nonce x.nonces p in
          elim (Bool-cases allowed) [
            | inr h ↦ rw h p
            | inl h ↦ rw h (elim (Bool-cases fresh) [
              | inr k ↦ rw k kept
              | inl k ↦ rw k (signed_keeps _ r (record x { rate = rate; nonces = nonces }) kept)
            ])
          ]

      place_all-keeps :
          (rs : List (OrderRequest fl)) (x x' : Exchange fl)
          → Seen n x
          → place_all verify rs x ≡ some x'
          → Seen n x'
      unfolding place_all
      place_all-keeps [] x x' p e = let same : x ≡ x' = ground (arith, e) in subst (Seen n) same p
      place_all-keeps (r ∷ rs) x x' p e = elim (Option-cases (place verify r x)) [
        | inl h ↦ ground (arith, h, e)
        | inr ((out, x1), h) ↦
            place_all-keeps rs x1 x' (subst (Holds (λ y. Seen n y.1)) h (place-keeps r x p))
              (ground (arith, h, e))
      ]

  Spends-Seen : (n : String) (a : Answer fl) → Holds (λ y. Seen n y.1) a → Holds (Spends n) a
  Spends-Seen n none p = tt
  Spends-Seen n (some (ok (placed id trades), x)) p = p
  Spends-Seen n (some (ok (refused why), x)) p = tt
  Spends-Seen n (some (raised e, x)) p = tt

  module _ (verify : String → String → String → Outcome Bool) where
    place-Spends :
        (r : OrderRequest fl) (x : Exchange fl) → Holds (Spends r.nonce) (place verify r x)
    unfolding place
    place-Spends r x =
        let (allowed, rate) = rate_limit fl r.now r.client_ip x.rate in
        let (fresh, nonces) = check_replay r.nonce x.nonces in
        elim (Bool-cases allowed) [
          | inr h ↦ rw h tt
          | inl h ↦ rw h (elim (Bool-cases fresh) [
            | inr k ↦ rw k tt
            | inl k ↦ rw k (
                Spends-Seen r.nonce _ (
                  signed_keeps r.nonce _ r (record x { rate = rate; nonces = nonces })
                    (accepted_seen r.nonce x.nonces k)))
          ])
        ]

    -- the two answers that do not look at the order
    abbrev pub RefusedEarly : OrderRequest fl → Exchange fl → Type 0
    RefusedEarly r x =
        (y : Outcome (Response fl) × Exchange fl) × (place verify r x ≡ some y)
        × ((y.0 ≡ ok (refused "rate limit")) ⊎ (y.0 ≡ ok (refused "replay")))

    Seen-RefusedEarly : (r : OrderRequest fl) (x : Exchange fl) → Seen r.nonce x → RefusedEarly r x
    unfolding place
    Seen-RefusedEarly r x p =
        let (allowed, rate) = rate_limit fl r.now r.client_ip x.rate in
        elim (Bool-cases allowed) [
          | inr h ↦ rw h (_, refl, inl refl)
          | inl h ↦ rw h (rw (seen_refused r.nonce x.nonces p) (_, refl, inr refl))
        ]

    -- Once a request has placed an order, and other requests have been served, whatever they were, a
    -- request with the same nonce is refused by the rate limit or as a replay.
    pub place_once :
        (r again : OrderRequest fl) (x x' x'' : Exchange fl) (id : String)
        (trades : List (Trade fl)) (between : List (OrderRequest fl))
        → place verify r x ≡ some (ok (placed id trades), x')
        → place_all verify between x' ≡ some x''
        → again.nonce ≡ r.nonce
        → RefusedEarly again x''
    place_once r again x x' x'' id trades between done served same =
        let spent : Seen r.nonce x' = subst (Holds (Spends r.nonce)) done (place-Spends r x) in
        Seen-RefusedEarly again x'' (
          subst (λ n. Seen n x'') (sym same)
            (place_all-keeps r.nonce verify between x' x'' spent served))
