-- ===== src/Egress/Url.antt =====
-- `SafeHttpClient._validate_url`. What `urlparse` and `ip_address` read out of a text is a parameter.
pub mod Laws
use zlttbots.Prelude.{
  Bool, true, false, not, ◌||◌, ◌&&◌, String, str_eq, Option, none, some, List, [], ◌∷◌, any_of,
  Outcome, ok, raised, value_error, raise_if, ◌>>◌, ◌>>=◌, truthy, concat, if◌then◌else◌,
}

-- an address of either version
pub record IpAddress : Type 0 where
  pub is_private : Bool
  pub is_loopback : Bool
  pub is_link_local : Bool
  pub is_multicast : Bool
  pub is_unspecified : Bool
  pub is_reserved : Bool

pub record ParseResult : Type 0 where
  pub scheme : String
  pub hostname : Option String

-- What the code uses of urllib, of ipaddress and of `str.lower`.
pub record Parsers : Type 0 where
  pub urlparse : String → ParseResult
  -- `none` is its ValueError
  pub ip_address : String → Option IpAddress
  pub lower : String → String

unfoldable pub is_blocked_address : IpAddress → Bool
is_blocked_address a =
    a.is_private || a.is_loopback || a.is_link_local || a.is_multicast || a.is_unspecified
    || a.is_reserved

-- `hostname not in allowed_hosts`, for a set of hosts that is there
unfoldable pub outside : String → Option (List String) → Bool
outside hostname none = false
outside hostname (some hosts) = not (any_of (str_eq hostname) hosts)

-- the test of the address, behind `ip_address`
unfoldable pub check_address : String → Option IpAddress → Outcome (Unit {0})
check_address hostname none =
    raise_if (str_eq hostname "localhost")
      (value_error "private or loopback host targets are not allowed")
check_address hostname (some a) =
    raise_if (is_blocked_address a) (value_error "private or loopback host targets are not allowed")

-- the tests of the host, behind `urlparse`
unfoldable pub check_host : Parsers → Option (List String) → Option String → Outcome (Unit {0})
unfolding check_address outside
check_host p allowed none = raised (value_error "url hostname is required")
check_host p allowed (some host) =
    let hostname = p.lower host in
    do
      raise_if (not (truthy host)) (value_error "url hostname is required")
      raise_if (outside hostname allowed)
          (value_error (concat ("url host '" ∷ hostname ∷ "' is not allowed" ∷ [])))
      check_address hostname (p.ip_address hostname)

unfoldable pub validate_url : Parsers → Option (List String) → String → Outcome (Unit {0})
unfolding check_host
validate_url p allowed url =
    let parsed = p.urlparse url in
    do
      raise_if (not (str_eq parsed.scheme "http" || str_eq parsed.scheme "https"))
          (value_error "url must use http or https")
      check_host p allowed parsed.hostname
