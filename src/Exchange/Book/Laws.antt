-- ===== src/Exchange/Book/Laws.antt =====
-- The loop of `match` ends, whatever the book.
use zlttbots.Prelude.{
  ℕ, zero, suc, ◌+◌, ◌≤◌, ◌<◌, ◌≡◌, refl, ◌⊎◌, true, Option, some, List, [], ◌∷◌, ◌++◌, length,
  Outcome, ok, raised, Error, arith, Bool-cases, Outcome-cases, inl, inr,
}
use zlttbots.Exchange.Floats.{Floats}
use zlttbots.Exchange.Heap.Laws.{length-heappop}
use zlttbots.Exchange.Book.{
  Entry, OrderBook, Trade, before, smaller, reduced, settle, both_settled, apart, traded,
  match_heads, match_from, match_orders,
}

module _ {fl : Floats} where
  -- there is no trade to be made: one side is empty, or its first buyer cannot pay its first seller
  abbrev pub Rests : List (Entry fl) → List (Entry fl) → Type 0
  Rests [] sells = Unit
  Rests (buy ∷ buys) [] = Unit
  Rests (buy ∷ buys) (sell ∷ sells) = apart buy sell ≡ true

  abbrev size : OrderBook fl → ℕ
  size b = length b.buys + length b.sells

  length-settle : (e : Entry fl) (es : List (Entry fl)) → length (settle e es).1 ≤ suc (length es)
  unfolding settle
  length-settle e es =
      let popped = length-heappop before e es in
      elim (Bool-cases (fl.equal e.order.qty fl.zero_float)) [
        | inl h ↦ rw h (omega arith)
        | inr h ↦ rw h (omega arith)
      ]

  length-settle_filled :
      (e : Entry fl) (es : List (Entry fl))
      → fl.equal e.order.qty fl.zero_float ≡ true
      → length (settle e es).1 ≡ length es
  unfolding settle
  length-settle_filled e es h = rw h (length-heappop before e es)

  size-both_settled :
      (bought sold : Outcome (Unit {0}) × List (Entry fl)) (sells : List (Entry fl))
      → (both_settled bought sold sells).0 ≡ ok tt
      → size (both_settled bought sold sells).1 ≡ length bought.1 + length sold.1
  unfolding both_settled
  size-both_settled (raised e, buys) sold sells h = ground (arith, h)
  size-both_settled (ok u, buys) (sold, sells') sells h = refl

  -- what is true of the answer of `match`
  abbrev pub Ended : Option (Outcome (List (Trade fl)) × OrderBook fl) → Type 0
  Ended r =
      (x : Outcome (List (Trade fl)) × OrderBook fl) × (r ≡ some x)
      × (((e : Error) × (x.0 ≡ raised e)) ⊎ Rests x.1.buys x.1.sells)

  module _ (minus_self : (q : fl.Float) → fl.equal (fl.minus q q) fl.zero_float ≡ true) where
    -- One of the two heads is filled, so a round takes an order out of the book.
    traded-size :
        (buy sell : Entry fl) (buys sells : List (Entry fl))
        → (traded buy buys sell sells).1 ≡ ok tt
        → size (traded buy buys sell sells).2 < suc (length buys) + suc (length sells)
    traded-size buy sell buys sells h =
        let qty = smaller fl buy.order.qty sell.order.qty in
        let sum =
          size-both_settled (settle (reduced qty buy) buys) (settle (reduced qty sell) sells)
            (reduced qty sell ∷ sells) h in
        let first = length-settle (reduced qty buy) buys in
        let second = length-settle (reduced qty sell) sells in
        elim (Bool-cases (fl.less sell.order.qty buy.order.qty)) [
          | inl less ↦
              let all : qty ≡ sell.order.qty = rw less refl in
              let filled =
                length-settle_filled (reduced qty sell) sells
                  (rw all (minus_self sell.order.qty)) in
              omega arith
          | inr more ↦
              let all : qty ≡ buy.order.qty = rw more refl in
              let filled =
                length-settle_filled (reduced qty buy) buys (rw all (minus_self buy.order.qty)) in
              omega arith
        ]

    Ended-from :
        (fuel : ℕ) (trades : List (Trade fl)) (buys sells : List (Entry fl))
        → length buys + length sells < fuel
        → Ended (match_from fuel trades (record { buys = buys; sells = sells }))
    unfolding match_from match_heads
    Ended-from zero trades buys sells h = absurd (omega arith)
    Ended-from (suc fuel) trades [] sells h = (_, refl, inr tt)
    Ended-from (suc fuel) trades (buy ∷ buys) [] h = (_, refl, inr tt)
    Ended-from (suc fuel) trades (buy ∷ buys) (sell ∷ sells) h =
        elim (Bool-cases (apart buy sell)) [
          | inl far ↦ rw (far, match_from) (_, refl, inr far)
          | inr near ↦
              let (t, result, b) = traded buy buys sell sells in
              rw (near, match_from)
                (elim (Outcome-cases result) [
                  | inr (e, k) ↦ rw (k, match_from) (_, refl, inl (e, refl))
                  | inl (u, k) ↦
                      let less = traded-size buy sell buys sells k in
                      rw (k, match_from)
                        (Ended-from fuel (trades ++ t ∷ []) b.buys b.sells (omega arith))
                ])
        ]

    pub match_ends :
        (b : OrderBook fl)
        → (x : Outcome (List (Trade fl)) × OrderBook fl) × (match_orders b ≡ some x)
          × (((e : Error) × (x.0 ≡ raised e)) ⊎ Rests x.1.buys x.1.sells)
    unfolding match_orders
    match_ends b = Ended-from (suc (length b.buys + length b.sells)) [] b.buys b.sells (omega arith)
