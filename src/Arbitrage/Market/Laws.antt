-- ===== src/Arbitrage/Market/Laws.antt =====
-- What a scan returns: opportunities that the products bear out, and no more than were asked for.
use mathlib.Core.List.{append-nil, append_assoc}
use zlttbots.Prelude.{
  ℕ, ◌≤◌, ◌≡◌, refl, Bool, true, false, ◌||◌, String, str_eq, string_eq, Option, some, List, [],
  ◌∷◌, ◌++◌, length, take, All, All-append, All-take, length-take, arith, Bool-cases, Option-cases,
  inl, inr, ltb, if◌then◌else◌, sym, ap, eq_iff, subst, ◌⊎◌, ◌∙◌,
}
use zlttbots.Prelude.Dict.{Dict, insert, get_or, lookup}
use zlttbots.Prelude.Sorting.{sorted, sorted-All, IsSorted, take-IsSorted, sorted-IsSorted}
use zlttbots.Arbitrage.Market.{
  Numbers, Product, Opportunity, MarketStore, id_text, same_id, opportunity_of, group_products,
  pair_with, pair_opportunities, sell_loop, buy_loop, group_loop, detect, richer, selected,
  get_product_payout, insert_events, insert_event, scan_arbitrage,
}

module _ {ℓ} {V : Type ℓ} where
  get_or_here :
      (d : V) (key j : String) (v : V) (g : Dict String V)
      → str_eq j key ≡ true
      → get_or d key ((j, v) ∷ g) ≡ v
  unfolding get_or lookup
  get_or_here d key j v g e =
      let found : lookup key ((j, v) ∷ g) ≡ some v = rw (e, lookup) refl in rw (found, get_or) refl

  get_or_later :
      (d : V) (key j : String) (v : V) (g : Dict String V)
      → str_eq j key ≡ false
      → get_or d key ((j, v) ∷ g) ≡ get_or d key g
  unfolding get_or lookup
  get_or_later d key j v g e =
      let skip : lookup key ((j, v) ∷ g) ≡ lookup key g = rw (e, lookup) refl in
      rw (skip, get_or) refl

module _ {nu : Numbers} (P : Product nu → Type 0) where
  -- the items of a group have its name and pass the test
  abbrev Kept : String → Product nu → Type 0
  Kept name p = (nu.normalize p.name ≡ name) × P p

  abbrev Grouped : Dict String (List (Product nu)) → Type 0
  Grouped g = All (λ e. All (Kept e.0) e.1) g

  get_or-Grouped :
      (key : String) (g : Dict String (List (Product nu)))
      → Grouped g
      → All (Kept key) (get_or [] key g)
  unfolding get_or lookup
  get_or-Grouped key [] h = tt
  get_or-Grouped key ((j, ps) ∷ g) (now, h) = elim (Bool-cases (str_eq j key)) [
    | inl e ↦
        let same : j ≡ key = (eq_iff j key).0 e in
        let first : get_or [] key ((j, ps) ∷ g) ≡ ps = get_or_here [] key j ps g e in
        subst (All (Kept key)) (sym first) (subst (λ k. All (Kept k) ps) same now)
    | inr e ↦
        let later : get_or [] key ((j, ps) ∷ g) ≡ get_or [] key g = get_or_later [] key j ps g e in
        subst (All (Kept key)) (sym later) (get_or-Grouped key g h)
  ]

  insert-Grouped :
      (key : String) (ps : List (Product nu)) (g : Dict String (List (Product nu)))
      → Grouped g
      → All (Kept key) ps
      → Grouped (insert key ps g)
  unfolding insert
  insert-Grouped key ps [] h k = (k, tt)
  insert-Grouped key ps ((j, qs) ∷ g) (now, h) k = elim (Bool-cases (str_eq j key)) [
    | inl e ↦
        let same : j ≡ key = (eq_iff j key).0 e in
        rw e (subst (λ i. All (Kept i) ps) (sym same) k, h)
    | inr e ↦ rw e (now, insert-Grouped key ps g h k)
  ]

  group_products-Grouped :
      (ps : List (Product nu)) (g : Dict String (List (Product nu)))
      → All P ps
      → Grouped g
      → Grouped (group_products ps g)
  unfolding group_products
  group_products-Grouped [] g a h = h
  group_products-Grouped (p ∷ ps) g (now, a) h =
      let key = nu.normalize p.name in
      group_products-Grouped ps _ a (
        insert-Grouped key _ g h (
          All-append (Kept key) (get_or [] key g) (p ∷ []) (get_or-Grouped key g h)
            ((refl, now), tt)))

module _ {nu : Numbers} (payout_lookup : String → String → Option nu.Float) (min_profit : nu.Float)
    (P : Product nu → Type 0) where
  -- An opportunity that two products bear out: they have the same name and different sources, the
  -- commission is the one that is known for the second, and the profit is above the least one.
  abbrev pub IsFound : Opportunity nu → Type 0
  IsFound o =
      (buy : Product nu) × (sell : Product nu) × (commission : nu.Float) × P buy
      × P sell
      × (nu.normalize buy.name ≡ o.product)
      × (nu.normalize sell.name ≡ o.product)
      × (str_eq buy.source sell.source ≡ false)
      × (payout_lookup sell.source (id_text sell.id) ≡ some commission)
      × (o ≡ opportunity_of o.product buy sell commission)
      × (nu.less min_profit o.profit ≡ true)

  pair-IsFound :
      (name : String) (buy sell : Product nu)
      → Kept P name buy
      → Kept P name sell
      → All IsFound (pair_opportunities payout_lookup min_profit name buy sell)
  unfolding pair_opportunities pair_with
  pair-IsFound name buy sell (n, p) (m, q) =
      elim (Bool-cases (str_eq buy.source sell.source || same_id buy.id sell.id)) [
        | inl skip ↦ rw (skip, All) tt
        | inr apart ↦ elim (Option-cases (payout_lookup sell.source (id_text sell.id))) [
          | inl unknown ↦ rw (apart, All) (rw (unknown, pair_with) tt)
          | inr (c, known) ↦
              elim (Bool-cases (nu.less min_profit (opportunity_of name buy sell c).profit)) [
                | inl much ↦ rw apart (
                    rw (known, pair_with)
                      (rw much ((buy, sell, c, p, q, n, m, ground arith, known, refl, much), tt)))
                | inr little ↦ rw apart (rw (known, pair_with) (rw little tt))
              ]
        ]
      ]

  sell_loop-IsFound :
      (name : String) (buy : Product nu) (sells : List (Product nu))
      → Kept P name buy
      → All (Kept P name) sells
      → All IsFound (sell_loop payout_lookup min_profit name buy sells)
  unfolding sell_loop
  sell_loop-IsFound name buy [] k h = tt
  sell_loop-IsFound name buy (sell ∷ sells) k (now, h) =
      All-append IsFound _ _ (pair-IsFound name buy sell k now)
        (sell_loop-IsFound name buy sells k h)

  buy_loop-IsFound :
      (name : String) (items buys : List (Product nu))
      → All (Kept P name) items
      → All (Kept P name) buys
      → All IsFound (buy_loop payout_lookup min_profit name items buys)
  unfolding buy_loop
  buy_loop-IsFound name items [] k h = tt
  buy_loop-IsFound name items (buy ∷ buys) k (now, h) =
      All-append IsFound _ _ (sell_loop-IsFound name buy items now k)
        (buy_loop-IsFound name items buys k h)

  group_loop-IsFound :
      (groups : Dict String (List (Product nu)))
      → Grouped P groups
      → All IsFound (group_loop payout_lookup min_profit groups)
  unfolding group_loop
  group_loop-IsFound [] h = tt
  group_loop-IsFound ((name, items) ∷ groups) (now, h) = elim (Bool-cases (ltb (length items) 2)) [
    | inl few ↦ rw few (group_loop-IsFound groups h)
    | inr enough ↦ rw enough (
        All-append IsFound _ _ (buy_loop-IsFound name items items now now)
          (group_loop-IsFound groups h))
  ]

  detect-IsFound :
      (products : List (Product nu))
      → All P products
      → All IsFound (detect payout_lookup min_profit products)
  unfolding detect
  detect-IsFound products h =
      group_loop-IsFound (group_products products []) (group_products-Grouped P products [] h tt)

module _ {nu : Numbers} where
  insert_events_lem :
      (os : List (Opportunity nu)) (s : MarketStore nu)
      → insert_events os s ≡ record s { arbitrage_events = s.arbitrage_events ++ os }
  unfolding insert_events insert_event
  insert_events_lem [] s =
      ap (λ es. record s { arbitrage_events = es }) (sym (append-nil s.arbitrage_events))
  insert_events_lem (o ∷ os) s =
      insert_events_lem os (insert_event o s)
      ∙ ap (λ es. record s { arbitrage_events = es }) (append_assoc s.arbitrage_events (o ∷ []) os)

  kept_events :
      (persist : Bool) (os : List (Opportunity nu)) (s : MarketStore nu)
      → (if persist then insert_events os s else s)
        ≡ record s { arbitrage_events = s.arbitrage_events ++ (if persist then os else []) }
  kept_events true os s = insert_events_lem os s
  kept_events false os s =
      ap (λ es. record s { arbitrage_events = es }) (sym (append-nil s.arbitrage_events))

module _ {nu : Numbers} (total : (x y : Opportunity nu) → (richer x y ≡ true) ⊎ (richer y x ≡ true))
    (trans : (x y z : Opportunity nu) → richer x y ≡ true → richer y z ≡ true → richer x z ≡ true)
    (P : Product nu → Type 0) where
  -- Where comparing profits is a total order: whatever holds of every product of the store holds of
  -- the two products behind each opportunity that a scan answers; it answers at most `max_results`
  -- of them, the richest first, and only adds them to the events when it is asked to.
  pub scan_arbitrage_lem :
      (persist : Bool) (min_profit : nu.Float) (max_results : ℕ) (s : MarketStore nu)
      → All P s.products
      → All
          (IsFound (λ network product_id. get_product_payout network product_id s) min_profit P)
          (scan_arbitrage persist min_profit max_results s).0
        × (length (scan_arbitrage persist min_profit max_results s).0 ≤ max_results)
        × IsSorted richer (scan_arbitrage persist min_profit max_results s).0
        × ((scan_arbitrage persist min_profit max_results s).1 ≡ record s {
          arbitrage_events =
              s.arbitrage_events
              ++ (if persist then (scan_arbitrage persist min_profit max_results s).0 else []);
        })
  unfolding scan_arbitrage selected
  scan_arbitrage_lem persist min_profit max_results s h =
      let lookup_now : String → String → Option nu.Float =
        λ network product_id. get_product_payout network product_id s in
      let found = detect lookup_now min_profit s.products in
      let ordered = sorted richer found in
      (
        All-take _ max_results ordered
            (sorted-All richer _ found (detect-IsFound lookup_now min_profit P s.products h)),
        omega (arith, length-take max_results ordered),
        take-IsSorted richer max_results ordered (sorted-IsSorted richer total trans found),
        kept_events persist (take max_results ordered) s,
      )
