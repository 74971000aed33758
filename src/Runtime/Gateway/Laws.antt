-- ===== src/Runtime/Gateway/Laws.antt =====
-- The gateway serves a path from healthy instances only, each in its turn.
use native.Mathlib.Nat.{mod-lt, mod-add-mod}
use zlttbots.Prelude.{
  ℕ, zero, suc, ◌+◌, ◌%◌, ◌<◌, ◌≡◌, refl, String, some, List, [], ◌∷◌, length, get_elem?, concat,
  ok, arith, string_eq, get_elem?_total, ◌≢◌, none, true, raised, key_error, All_get_elem?,
  lookup_error, All-keep_if, All-keep_if_sub,
}
use zlttbots.Prelude.Dict.{lookup, get_or, get_or-insert_self, insert}
use zlttbots.Runtime.Discovery.{ServiceInstance, endpoint, resolve, instances}
use zlttbots.Runtime.Discovery.Laws.{instances-resolve, IsValid}
use zlttbots.Runtime.Gateway.{Route, ApiGateway, target, take_turn, route_to, route}

-- the healthy instances of a service, as the gateway sees them
abbrev pub candidates : ApiGateway → String → List ServiceInstance
candidates g service = (resolve service g.discovery).0

-- the turn that is next for a service
abbrev pub turn : ApiGateway → String → ℕ
turn g service = get_or 0 service g.round_robin_idx

-- The state after a number of calls for one path.
pub after_calls : ℕ → String → ApiGateway → ApiGateway
after_calls zero path g = g
after_calls (suc n) path g = after_calls n path (route path g).1

shift_turn : (t k n : ℕ) → (t % n + 1 + k) % n ≡ (t + suc k) % n
shift_turn t k n =
    let regroup : t % n + 1 + k ≡ t % n + suc k = omega arith in
    rw regroup (mod-add-mod t n (suc k))

length-pos :
    (cs : List ServiceInstance) (n : ℕ) (i : ServiceInstance)
    → get_elem? cs n ≡ some i
    → 0 < length cs
length-pos [] n i e = cc
length-pos (c ∷ cs) n i e = omega arith

length-pos_of_ne : (cs : List ServiceInstance) → cs ≢ [] → 0 < length cs
length-pos_of_ne [] h = absurd (h refl)
length-pos_of_ne (c ∷ cs) h = omega arith

module _ (path s : String) (i : ServiceInstance) where
  take_turn_serves :
      (cs : List ServiceInstance) (g : ApiGateway)
      → get_elem? cs (turn g s % length cs) ≡ some i
      → (take_turn path s cs g).0 ≡ ok (concat (endpoint i ∷ path ∷ []))
  unfolding take_turn target
  take_turn_serves [] g e = cc
  take_turn_serves (c ∷ cs) g e = rw (e, target)

  take_turn_moves :
      (cs : List ServiceInstance) (g : ApiGateway)
      → get_elem? cs (turn g s % length cs) ≡ some i
      → (take_turn path s cs g).1
        ≡ record g { round_robin_idx = insert s (turn g s % length cs + 1) g.round_robin_idx }
  unfolding take_turn
  take_turn_moves [] g e = cc
  take_turn_moves (c ∷ cs) g e = refl

-- the state in which the turn is taken: the lookup has gone through the registry
abbrev resolved : String → ApiGateway → ApiGateway
resolved s g = record g { discovery = (resolve s g.discovery).1 }

module _ (path : String) (r : Route) where
  route_found :
      (g : ApiGateway)
      → lookup path g.routes ≡ some r
      → route path g ≡ take_turn path r.service (candidates g r.service) (resolved r.service g)
  unfolding route route_to
  route_found g e = rw (e, route_to)

  module _ (i : ServiceInstance) (g : ApiGateway) (found : lookup path g.routes ≡ some r)
      (next : get_elem?
          (candidates g r.service)
          (turn g r.service % length (candidates g r.service))
        ≡ some i) where
    route_serves : (route path g).0 ≡ ok (concat (endpoint i ∷ path ∷ []))
    route_serves =
        rw (route_found g found) (take_turn_serves path r.service i _ (resolved r.service g) next)

    route_moves : (route path g).1 ≡ record g {
      discovery = (resolve r.service g.discovery).1;
      round_robin_idx =
          insert r.service
            (turn g r.service % length (candidates g r.service) + 1)
            g.round_robin_idx;
    }
    route_moves =
        rw (route_found g found) (take_turn_moves path r.service i _ (resolved r.service g) next)

    found-route : lookup path (route path g).1.routes ≡ some r
    found-route = rw route_moves found

    candidates-route : candidates (route path g).1 r.service ≡ candidates g r.service
    unfolding resolve
    candidates-route = rw (route_moves, instances-resolve)

    turn-route :
        turn (route path g).1 r.service ≡ turn g r.service % length (candidates g r.service) + 1
    turn-route = rw (route_moves, get_or-insert_self)

  -- the k-th call from any state is served by the instance k places after the first turn
  pub turn_served :
      (k : ℕ) (i : ServiceInstance) (g : ApiGateway)
      → lookup path g.routes ≡ some r
      → get_elem?
          (candidates g r.service)
          ((turn g r.service + k) % length (candidates g r.service))
        ≡ some i
      → (route path (after_calls k path g)).0 ≡ ok (concat (endpoint i ∷ path ∷ []))
  unfolding after_calls
  turn_served zero i g found e =
      let t = turn g r.service in
      let now : t + 0 ≡ t = omega arith in route_serves i g found (rw now at e)
  turn_served (suc k) i g found e =
      let cs = candidates g r.service in
      let t = turn g r.service in
      let (j, next) = get_elem?_total cs (t % length cs) (mod-lt t (length-pos cs _ i e)) in
      turn_served k i (route path g).1 (found-route j g found next) (
        rw (candidates-route j g found next, turn-route j g found next, shift_turn t k (length cs))
          e)

  -- Over a valid registry, with n healthy instances behind a path, the k-th call from any state is
  -- served by the instance that stands k places after the first turn, counted round the list, and that
  -- is a healthy instance of the path's service.
  pub round_robin :
      (k : ℕ) (i : ServiceInstance) (g : ApiGateway)
      → IsValid g.discovery
      → lookup path g.routes ≡ some r
      → get_elem?
          (candidates g r.service)
          ((turn g r.service + k) % length (candidates g r.service))
        ≡ some i
      → ((route path (after_calls k path g)).0 ≡ ok (concat (endpoint i ∷ path ∷ [])))
        × (i.healthy ≡ true)
        × (i.service ≡ r.service)
  unfolding resolve
  round_robin k i g v found e =
      let cs = candidates g r.service in
      let known = instances g.discovery r.service in
      let n = (turn g r.service + k) % length cs in
      (
        turn_served k i g found e,
        All_get_elem? (λ i. i.healthy ≡ true) cs n i (All-keep_if (λ i. i.healthy) known) e,
        All_get_elem? (λ i. i.service ≡ r.service) cs n i
            (All-keep_if_sub (λ i. i.service ≡ r.service) (λ i. i.healthy) known
              (v.filed r.service))
            e,
      )

module _ (path : String) (g : ApiGateway) where
  -- A path with a route never fails while its service has a healthy instance: over a valid registry,
  -- the address that is returned belongs to a healthy instance of that very service.
  pub route_available :
      (r : Route)
      → IsValid g.discovery
      → lookup path g.routes ≡ some r
      → candidates g r.service ≢ []
      → (i : ServiceInstance) × (i.healthy ≡ true)
        × (i.service ≡ r.service)
        × ((route path g).0 ≡ ok (concat (endpoint i ∷ path ∷ [])))
  unfolding resolve
  route_available r v found some_left =
      let cs = candidates g r.service in
      let known = instances g.discovery r.service in
      let n = turn g r.service % length cs in
      let (i, e) =
        get_elem?_total cs n (mod-lt (turn g r.service) (length-pos_of_ne cs some_left)) in
      (
        i,
        All_get_elem? (λ i. i.healthy ≡ true) cs n i (All-keep_if (λ i. i.healthy) known) e,
        All_get_elem? (λ i. i.service ≡ r.service) cs n i
            (All-keep_if_sub (λ i. i.service ≡ r.service) (λ i. i.healthy) known
              (v.filed r.service))
            e,
        route_serves path r i g found e,
      )

  -- A path without a route, or with no healthy instance behind it, raises and uses up no turn.
  pub route_refused :
      (lookup path g.routes ≡ none
        → route path g ≡ (raised (key_error (concat ("No route configured for " ∷ path ∷ []))), g))
      × ((r : Route)
          → lookup path g.routes ≡ some r
          → candidates g r.service ≡ []
          → ((route path g).0
              ≡ raised (
                  lookup_error
                    (concat ("No healthy instance found for service=" ∷ r.service ∷ []))))
            × ((route path g).1.round_robin_idx ≡ g.round_robin_idx))
  unfolding route route_to take_turn
  route_refused = (
    λ e. rw (e, route_to),
    λ r e down. rw (route_found path r g e) (rw (down, take_turn) (refl, refl)),
  )
