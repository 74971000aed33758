-- ===== src/Runtime/Gateway.antt =====
-- enterprise_maturity/v3_runtime/api_gateway.py: a path leads to a service, and the healthy instances
-- of the service take turns.
pub mod Laws
use zlttbots.Prelude.{
  ℕ, ◌+◌, ◌%◌, String, Option, none, some, List, [], ◌∷◌, map, length, get_elem?, string_eq, concat,
  Outcome, ok, raised, key_error, lookup_error, index_error,
}
use zlttbots.Prelude.Dict.{Dict, lookup, insert, get_or}
use zlttbots.Runtime.Discovery.{ServiceInstance, ServiceDiscovery, endpoint, resolve}

pub record Route : Type 0 where
  pub path : String
  pub service : String

pub record ApiGateway : Type 0 where
  pub discovery : ServiceDiscovery
  pub routes : Dict String Route
  pub round_robin_idx : Dict String ℕ

unfoldable pub add_route : Route → ApiGateway → ApiGateway
add_route r g = record g { routes = insert r.path r g.routes }

-- `f"{candidates[idx].endpoint}{path}"`
unfoldable pub target : String → Option ServiceInstance → Outcome String
target path none = raised (index_error "list index out of range")
target path (some i) = ok (concat (endpoint i ∷ path ∷ []))

-- the part of `route` behind the test for candidates
unfoldable pub take_turn :
    String → String → List ServiceInstance → ApiGateway → Outcome String × ApiGateway
unfolding target
take_turn path service [] g =
    (raised (lookup_error (concat ("No healthy instance found for service=" ∷ service ∷ []))), g)
take_turn path service (c ∷ cs) g =
    let candidates : List ServiceInstance = c ∷ cs in
    let idx = get_or 0 service g.round_robin_idx % length candidates in
    (
      target path (get_elem? candidates idx),
      record g { round_robin_idx = insert service (idx + 1) g.round_robin_idx },
    )

-- the part of `route` behind the lookup of the path
unfoldable pub route_to : String → Option Route → ApiGateway → Outcome String × ApiGateway
unfolding take_turn
route_to path none g = (raised (key_error (concat ("No route configured for " ∷ path ∷ []))), g)
route_to path (some r) g =
    let (candidates, discovery) = resolve r.service g.discovery in
    take_turn path r.service candidates (record g { discovery = discovery })

unfoldable pub route : String → ApiGateway → Outcome String × ApiGateway
unfolding route_to
route path g = route_to path (lookup path g.routes) g

pub routes_view : ApiGateway → Dict String String
routes_view g = map (λ (e : String × Route). (e.0, e.1.service)) g.routes
