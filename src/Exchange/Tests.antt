-- ===== src/Exchange/Tests.antt =====
-- The exchange at concrete inputs: floats that are integers, and floats with an infinity.
use zlttbots.Prelude.{◌+◌, ◌≡◌, refl, arith, Bool, true, false, String, none, some, [], ◌∷◌, ◌==◌}
use zlttbots.Prelude.Int.{ℤ, pos, negsuc, ltb_ℤ, ◌-ℤ◌, pos_part, neg_part, show_ℤ}
use zlttbots.Exchange.Floats.{Floats}
use zlttbots.Exchange.Heap.{heappush, sift_down, less_at, swap, swap_with, set_at}
use zlttbots.Exchange.Book.{Order, Entry, OrderBook, add, match_orders, match_from}
use zlttbots.Exchange.Book.{new_order, match_heads, before}
use zlttbots.Prelude.Dict.{insert, lookup, get_or}
use zlttbots.Prelude.{Outcome, ok, show}
use zlttbots.Exchange.Limits.{check_replay, rate_limit, recent}
use zlttbots.Exchange.Orders.{
  OrderRequest, Exchange, Response, placed, place, place_signed, place_order, place_all,
  match_added, answer_of,
}
use zlttbots.Exchange.Orders.Laws.{place-Bounded}
use zlttbots.Exchange.Limits.Laws.{Bounded}
use zlttbots.Prelude.{raised, type_error}
use zlttbots.Exchange.Orders.Replay.{RefusedEarly, place_once}
use zlttbots.Exchange.Book.Infinite.{match_spins}

-- `a == b` on integers
abbrev equal_ℤ : ℤ → ℤ → Bool
equal_ℤ a b = pos_part a + neg_part b == pos_part b + neg_part a

abbrev integers : Floats
integers = record {
  Float = ℤ;
  zero_float = pos 0;
  one_float = pos 1;
  negate = λ a. pos 0 -ℤ a;
  minus = ◌-ℤ◌;
  less = ltb_ℤ;
  equal = equal_ℤ;
  show_6 = show_ℤ;
}

integers_cancel : (x : ℤ) → equal_ℤ (x -ℤ x) (pos 0) ≡ true
unfolding ◌-ℤ◌
integers_cancel x = ground arith

abbrev order : String → ℤ → ℤ → ℤ → String → Order integers
order side price qty ts id = record {
  side = side;
  price = price;
  qty = qty;
  oid = some id;
  ts = ts;
  id = id;
}

abbrev book : OrderBook integers
book = record {
  buys =
      record { key = negsuc 9; ts = pos 2; order = order "buy" (pos 10) (pos 5) (pos 2) "b1" }
      ∷ record { key = negsuc 7; ts = pos 1; order = order "buy" (pos 8) (pos 4) (pos 1) "b2" }
      ∷ [];
  sells =
      record { key = pos 9; ts = pos 3; order = order "sell" (pos 9) (pos 7) (pos 3) "s1" } ∷ [];
}

-- a finite float, an infinity or a NaN
data Wide : Type 0 where
  finite : ℤ → Wide
  infinity nan : Wide

abbrev minus : Wide → Wide → Wide
minus (finite a) (finite b) = finite (a -ℤ b)
minus infinity (finite b) = infinity
minus _ _ = nan

abbrev less : Wide → Wide → Bool
less (finite a) (finite b) = ltb_ℤ a b
less (finite a) infinity = true
less _ _ = false

abbrev equal : Wide → Wide → Bool
equal (finite a) (finite b) = equal_ℤ a b
equal infinity infinity = true
equal _ _ = false

abbrev negate : Wide → Wide
negate (finite a) = finite (pos 0 -ℤ a)
negate _ = nan

abbrev wide : Floats
wide = record {
  Float = Wide;
  zero_float = finite (pos 0);
  one_float = finite (pos 1);
  negate = negate;
  minus = minus;
  less = less;
  equal = equal;
  show_6 = λ _. "";
}

abbrev offer : String → ℤ → Entry wide
offer side key = record {
  key = finite key;
  ts = finite (pos 1);
  order = record {
    side = side;
    price = finite (pos 10);
    qty = infinity;
    oid = some side;
    ts = finite (pos 1);
    id = side;
  };
}

match_spins_example :
    match_from 1000 []
      (record { buys = offer "buy" (negsuc 9) ∷ []; sells = offer "sell" (pos 10) ∷ [] })
    ≡ none
unfolding ◌-ℤ◌
match_spins_example =
    match_spins nan refl refl 1000 infinity [] (offer "buy" (negsuc 9)) (offer "sell" (pos 10)) []
      [] refl refl

abbrev request : String → ℤ → String → OrderRequest integers
request side price nonce = record {
  side = side;
  price = price;
  qty = pos 3;
  nonce = nonce;
  message_b64 = "m";
  signature_b64 = "s";
  public_key_b64 = "k";
  client_ip = "10.0.0.1";
  now = pos 100;
  ts = pos 100;
}

abbrev verified : String → String → String → Outcome Bool
verified m s k = ok true

abbrev quiet : Exchange integers
quiet = record { orderbook = book; nonces = "old" ∷ []; rate = [] }

quiet-Bounded : Bounded integers quiet.rate
unfolding get_or lookup
quiet-Bounded ip = omega arith

place-Bounded_example :
    (y : Outcome (Response integers) × Exchange integers) × (place verified
        (request "sell" (pos 9) "n1")
        quiet
      ≡ some y)
    × Bounded integers y.1.rate
place-Bounded_example =
    place-Bounded integers_cancel verified (request "sell" (pos 9) "n1") quiet quiet-Bounded

abbrev empty_exchange : Exchange integers
empty_exchange = record { orderbook = record { buys = []; sells = [] }; nonces = []; rate = [] }

-- two different buys of the same price and time: the second one is not added in order, but raises
abbrev twice : Outcome (Unit {0}) × OrderBook integers
twice =
    add (order "buy" (pos 10) (pos 1) (pos 2) "b3")
      (add (order "buy" (pos 10) (pos 5) (pos 2) "b1") empty_exchange.orderbook).1

tie_raises :
    twice.0 ≡ raised (type_error "'<' not supported between instances of 'Order' and 'Order'")
unfolding add heappush sift_down less_at before swap swap_with set_at ◌-ℤ◌
tie_raises = refl

-- the exchange after one buy
abbrev bought : Exchange integers
bought = record {
  orderbook = record {
    buys =
        record {
          key = negsuc 8;
          ts = pos 100;
          order = record (order "buy" (pos 9) (pos 3) (pos 100) "buy-100") { oid = none };
        }
        ∷ [];
    sells = [];
  };
  nonces = "n1" ∷ [];
  rate = ("10.0.0.1", pos 100 ∷ []) ∷ [];
}

place_buys :
    place verified (request "buy" (pos 9) "n1") empty_exchange
    ≡ some (ok (placed "buy-100" []), bought)
unfolding place place_signed place_order match_added answer_of match_orders match_from match_heads
    add heappush sift_down rate_limit recent check_replay new_order insert lookup get_or ◌-ℤ◌ show
place_buys = refl

place_once_example : RefusedEarly verified (request "sell" (pos 5) "n1") bought
unfolding place_all
place_once_example =
    place_once verified (request "buy" (pos 9) "n1") (request "sell" (pos 5) "n1") empty_exchange
      bought bought "buy-100" [] [] place_buys refl refl
