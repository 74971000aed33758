-- ===== src/Exchange/Orders.antt =====
-- main.py, `place`: the checks in their order, then the order book. The check of a signature is a
-- parameter: it decodes a key, which can raise, and calls a library.
pub mod Laws
pub mod Replay
use zlttbots.Prelude.{
  ℕ, Bool, true, false, not, String, Option, none, some, List, [], ◌∷◌, Outcome, ok, raised,
  if◌then◌else◌,
}
use zlttbots.Prelude.Dict.{Dict}
use zlttbots.Exchange.Floats.{Floats}
use zlttbots.Exchange.Book.{Order, OrderBook, Trade, new_order, add, match_orders}
use zlttbots.Exchange.Limits.{check_replay, rate_limit}

module _ (fl : Floats) where
  -- an `OrderRequest`, with its address, the time of the rate limit and that of the order
  pub record OrderRequest : Type 0 where
    pub side : String
    pub price : fl.Float
    pub qty : fl.Float
    pub nonce : String
    pub message_b64 : String
    pub signature_b64 : String
    pub public_key_b64 : String
    pub client_ip : String
    pub now : fl.Float
    pub ts : fl.Float

  -- the module's `orderbook`, and `NONCES` and `RATE` of security.py
  pub record Exchange : Type 0 where
    pub orderbook : OrderBook fl
    pub nonces : List String
    pub rate : Dict String (List fl.Float)

  pub data Response : Type 0 where
    refused : String → Response
    placed : String → List (Trade fl) → Response

  -- an answer with the exchange after it; `none` is a loop that does not end
  abbrev pub Answer : Type 0
  Answer = Option (Outcome Response × Exchange)

module _ {fl : Floats} where
  -- the answer for what `match` comes to
  unfoldable pub answer_of :
      Order fl → Exchange fl → Option (Outcome (List (Trade fl)) × OrderBook fl) → Answer fl
  answer_of o x none = none
  answer_of o x (some (raised e, book)) = some (raised e, record x { orderbook = book })
  answer_of o x (some (ok trades, book)) =
      some (ok (placed o.id trades), record x { orderbook = book })

  -- the part of `place` behind `orderbook.add`
  unfoldable pub match_added :
      Order fl → Outcome (Unit {0}) × OrderBook fl → Exchange fl → Answer fl
  unfolding answer_of
  match_added o (raised e, book) x = some (raised e, record x { orderbook = book })
  match_added o (ok _, book) x = answer_of o x (match_orders book)

  -- the part of `place` behind the new order
  unfoldable pub place_order : Outcome (Order fl) → Exchange fl → Answer fl
  unfolding match_added
  place_order (raised e) x = some (raised e, x)
  place_order (ok o) x = match_added o (add o x.orderbook) x

  -- the part of `place` behind the check of the signature
  unfoldable pub place_signed : Outcome Bool → OrderRequest fl → Exchange fl → Answer fl
  unfolding place_order
  place_signed (raised e) r x = some (raised e, x)
  place_signed (ok false) r x = some (ok (refused "signature"), x)
  place_signed (ok true) r x = place_order (new_order r.side r.price r.qty none r.ts) x

  module _ (verify_signature : String → String → String → Outcome Bool) where
    unfoldable pub place : OrderRequest fl → Exchange fl → Answer fl
    unfolding place_signed
    place r x =
        let (allowed, rate) = rate_limit fl r.now r.client_ip x.rate in
        let (fresh, nonces) = check_replay r.nonce x.nonces in
        if not allowed
        then some (ok (refused "rate limit"), record x { rate = rate })
        else if not fresh
        then some (ok (refused "replay"), record x { rate = rate; nonces = nonces })
        else place_signed (verify_signature r.message_b64 r.signature_b64 r.public_key_b64) r
            (record x { rate = rate; nonces = nonces })

    -- requests one after the other
    unfoldable pub place_all : List (OrderRequest fl) → Exchange fl → Option (Exchange fl)
    unfolding place
    place_all [] x = some x
    place_all (r ∷ rs) x = elim (place r x) [ none ↦ none | some (_, x') ↦ place_all rs x' ]
