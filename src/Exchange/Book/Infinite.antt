-- ===== src/Exchange/Book/Infinite.antt =====
-- Quantities that do not cancel: `inf - inf` is NaN, and NaN is not equal to 0.
use zlttbots.Prelude.{ok, ℕ, zero, suc, ◌≡◌, refl, false, none, List, ◌∷◌, Bool-cases, inl, inr}
use zlttbots.Exchange.Floats.{Floats}
use zlttbots.Exchange.Book.{
  Entry, Trade, smaller, reduced, settle, both_settled, apart, traded, match_heads, match_from,
}

module _ (fl : Floats) where
  smaller_self : (q : fl.Float) → smaller fl q q ≡ q
  smaller_self q = elim (Bool-cases (fl.less q q)) [ inl h ↦ rw h refl | inr h ↦ rw h refl ]

module _ {fl : Floats} where
  -- an entry with another quantity
  abbrev with_qty : fl.Float → Entry fl → Entry fl
  with_qty q e = record e { order = record e.order { qty = q } }

  module _ (nan : fl.Float) (nan_nonzero : fl.equal nan fl.zero_float ≡ false)
      (nan_minus : fl.minus nan nan ≡ nan) where
    settle_stuck :
        (q : fl.Float) (e : Entry fl) (es : List (Entry fl))
        → fl.minus q q ≡ nan
        → settle (reduced q (with_qty q e)) es ≡ (ok tt, with_qty nan e ∷ es)
    unfolding settle
    settle_stuck q e es h = rw h (rw nan_nonzero refl)

    traded_stuck :
        (q : fl.Float) (buy sell : Entry fl) (buys sells : List (Entry fl))
        → fl.minus q q ≡ nan
        → let x = traded (with_qty q buy) buys (with_qty q sell) sells in
          (x.1 ≡ ok tt)
          × (x.2 ≡ record { buys = with_qty nan buy ∷ buys; sells = with_qty nan sell ∷ sells })
    unfolding both_settled
    traded_stuck q buy sell buys sells h = rw (smaller_self fl q) (
        rw (settle_stuck q buy buys h, both_settled)
          (rw (settle_stuck q sell sells h, both_settled) (refl, refl)))

    -- Two heads that meet, both with a quantity q whose difference with itself is a NaN, as it is for
    -- an infinite q: neither is ever filled, and `match` does not return, however long it runs.
    pub match_spins :
        (fuel : ℕ) (q : fl.Float) (trades : List (Trade fl)) (buy sell : Entry fl)
        (buys sells : List (Entry fl))
        → fl.minus q q ≡ nan
        → apart buy sell ≡ false
        → match_from fuel trades
            (record { buys = with_qty q buy ∷ buys; sells = with_qty q sell ∷ sells })
          ≡ none
    unfolding match_from match_heads
    match_spins zero q trades buy sell buys sells h meet = refl
    match_spins (suc fuel) q trades buy sell buys sells h meet =
        let (fine, stuck) = traded_stuck q buy sell buys sells h in
        rw (meet, match_from)
          (rw (fine, match_from)
            (rw stuck (match_spins fuel nan _ buy sell buys sells nan_minus meet)))
