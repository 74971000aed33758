-- ===== src/Exchange/Orders/Laws.antt =====
-- What the endpoint promises whatever it is sent: it comes to an end, and the rate limit is kept.
use zlttbots.Prelude.{
  none, List, ◌≡◌, refl, Bool, true, false, String, some, Outcome, ok, raised, Bool-cases, inl, inr,
  string_eq,
}
use zlttbots.Exchange.Floats.{Floats}
use zlttbots.Exchange.Book.{Order, OrderBook, Trade, new_order, add}
use zlttbots.Exchange.Book.Laws.{match_ends}
use zlttbots.Exchange.Limits.{check_replay, rate_limit}
use zlttbots.Exchange.Limits.Laws.{Bounded, rate_limit-Bounded}
use zlttbots.Exchange.Orders.{
  OrderRequest, Exchange, Response, refused, Answer, place_order, place_signed, place, answer_of,
  match_added,
}

module _ {fl : Floats} where
  -- there is an answer, and the rate limit is kept behind it
  abbrev pub Answered : Answer fl → Type 0
  Answered a = (y : Outcome (Response fl) × Exchange fl) × (a ≡ some y) × Bounded fl y.1.rate

  module _ (minus_self : (q : fl.Float) → fl.equal (fl.minus q q) fl.zero_float ≡ true) where
    match-Answered :
        (o : Order fl) (x : Exchange fl) (r : Outcome (List (Trade fl))) (b : OrderBook fl)
        → Bounded fl x.rate
        → Answered (answer_of o x (some (r, b)))
    unfolding answer_of
    match-Answered o x (raised e) b v = (_, refl, v)
    match-Answered o x (ok trades) b v = (_, refl, v)

    added-Answered :
        (o : Order fl) (a : Outcome (Unit {0}) × OrderBook fl) (x : Exchange fl)
        → Bounded fl x.rate
        → Answered (match_added o a x)
    unfolding match_added
    added-Answered o (raised e, b) x v = (_, refl, v)
    added-Answered o (ok u, b) x v =
        let ((r, b'), ends, _) = match_ends minus_self b in
        rw (ends, match_added) (match-Answered o x r b' v)

    order-Answered :
        (o : Outcome (Order fl)) (x : Exchange fl) → Bounded fl x.rate → Answered (place_order o x)
    unfolding place_order
    order-Answered (raised e) x v = ((raised e, x), refl, v)
    order-Answered (ok o) x v = added-Answered o (add o x.orderbook) x v

    signed-Answered :
        (s : Outcome Bool) (r : OrderRequest fl) (x : Exchange fl)
        → Bounded fl x.rate
        → Answered (place_signed s r x)
    unfolding place_signed
    signed-Answered (raised e) r x v = ((raised e, x), refl, v)
    signed-Answered (ok false) r x v = ((ok (refused "signature"), x), refl, v)
    signed-Answered (ok true) r x v = order-Answered (new_order r.side r.price r.qty none r.ts) x v

    -- Where a quantity less itself is 0, as it is for finite floats: whatever the book, `place` comes to
    -- an end, with an answer or an error, and if at most ten times were kept for each address before,
    -- they are after it.
    pub place-Bounded :
        (verify : String → String → String → Outcome Bool) (r : OrderRequest fl) (x : Exchange fl)
        → Bounded fl x.rate
        → (y : Outcome (Response fl) × Exchange fl) × (place verify r x ≡ some y)
          × Bounded fl y.1.rate
    unfolding place
    place-Bounded verify r x v =
        let (allowed, rate) = rate_limit fl r.now r.client_ip x.rate in
        let bounded = rate_limit-Bounded fl r.now r.client_ip x.rate v in
        let (fresh, nonces) = check_replay r.nonce x.nonces in
        elim (Bool-cases allowed) [
          | inr h ↦ rw h (_, refl, bounded)
          | inl h ↦ rw h (elim (Bool-cases fresh) [
            | inr k ↦ rw k (_, refl, bounded)
            | inl k ↦ rw k (signed-Answered _ r (record x { rate = rate; nonces = nonces }) bounded)
          ])
        ]
