-- ===== src/Runtime/Discovery.antt =====
-- enterprise_maturity/v3_runtime/service_discovery.py. `_services` is a defaultdict, so looking a
-- service up creates its entry. A port is a number that is not negative.
pub mod Laws
use zlttbots.Prelude.{
  ℕ, String, Bool, not, List, [], ◌∷◌, ◌++◌, map, keep_if, str_eq, string_eq, concat, show,
}
use zlttbots.Prelude.Dict.{Dict, insert, get_or}

pub record ServiceInstance : Type 0 where
  pub service : String
  pub host : String
  pub port : ℕ
  pub version : String
  pub healthy : Bool

-- f"http://{self.host}:{self.port}"
unfoldable pub endpoint : ServiceInstance → String
endpoint i = concat ("http://" ∷ i.host ∷ ":" ∷ show i.port ∷ [])

-- `ServiceDiscovery._services`
abbrev pub ServiceDiscovery : Type 0
ServiceDiscovery = Dict String (List ServiceInstance)

-- `self._services[service]`
abbrev pub instances : ServiceDiscovery → String → List ServiceInstance
instances d service = get_or [] service d

-- `[i for i in existing if i.endpoint != endpoint]`
unfoldable pub without_endpoint : String → List ServiceInstance → List ServiceInstance
without_endpoint e = keep_if (λ i. not (str_eq (endpoint i) e))

unfoldable pub register : ServiceInstance → ServiceDiscovery → ServiceDiscovery
register i d = insert i.service (without_endpoint (endpoint i) (instances d i.service) ++ i ∷ []) d

unfoldable pub deregister : String → String → ServiceDiscovery → ServiceDiscovery
deregister service e d = insert service (without_endpoint e (instances d service)) d

unfoldable pub resolve : String → ServiceDiscovery → List ServiceInstance × ServiceDiscovery
resolve service d =
    (keep_if (λ i. i.healthy) (instances d service), insert service (instances d service) d)

pub snapshot : ServiceDiscovery → Dict String (List String)
snapshot = map (λ (e : String × List ServiceInstance). (e.0, map endpoint e.1))
