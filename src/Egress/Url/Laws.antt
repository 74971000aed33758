-- ===== src/Egress/Url/Laws.antt =====
-- Which URLs the guard accepts, described without its order of tests.
use zlttbots.Prelude.{
  Bool, true, false, not, ◌||◌, ◌&&◌, String, str_eq, Option, none, some, List, any_of, raised, ◌≡◌,
  refl, is_ok, truthy, arith, Outcome-cases, inl, inr, Error, sym, ap, ◌∙◌,
}
use zlttbots.Egress.Url.{
  IpAddress, Parsers, is_blocked_address, outside, check_address, check_host, validate_url,
}

-- a host that is not known to be internal
abbrev pub is_public : String → Option IpAddress → Bool
is_public hostname none = not (str_eq hostname "localhost")
is_public hostname (some a) = not (is_blocked_address a)

abbrev pub is_listed : String → Option (List String) → Bool
is_listed hostname none = true
is_listed hostname (some hosts) = any_of (str_eq hostname) hosts

abbrev pub host_permitted : Parsers → Option (List String) → Option String → Bool
host_permitted p allowed none = false
host_permitted p allowed (some host) =
    let hostname = p.lower host in
    truthy host && is_listed hostname allowed && is_public hostname (p.ip_address hostname)

-- HTTP to a host that is named, is one of the allowed ones, and is not known to be internal
abbrev pub permitted : Parsers → Option (List String) → String → Bool
permitted p allowed url =
    let parsed = p.urlparse url in
    (str_eq parsed.scheme "http" || str_eq parsed.scheme "https")
    && host_permitted p allowed parsed.hostname

is_ok-check_address :
    (hostname : String) (a : Option IpAddress)
    → is_ok (check_address hostname a) ≡ is_public hostname a
unfolding check_address
is_ok-check_address hostname none = ground arith
is_ok-check_address hostname (some a) = ground arith

outside-is_listed :
    (hostname : String) (allowed : Option (List String))
    → outside hostname allowed ≡ not (is_listed hostname allowed)
unfolding outside
outside-is_listed hostname none = refl
outside-is_listed hostname (some hosts) = refl

is_ok-check_host :
    (p : Parsers) (allowed : Option (List String)) (host : Option String)
    → is_ok (check_host p allowed host) ≡ host_permitted p allowed host
unfolding check_host
is_ok-check_host p allowed none = refl
is_ok-check_host p allowed (some host) =
    let hostname = p.lower host in
    ground (
      arith,
      outside-is_listed hostname allowed,
      is_ok-check_address hostname (p.ip_address hostname),
    )

-- The guard accepts a URL exactly if its scheme is that of HTTP, its host is named and is one of the
-- allowed hosts, if there is a list of them, and the host is neither an address that is private,
-- loopback, link-local, multicast, unspecified or reserved, nor localhost.
pub validate_url_lem :
    (p : Parsers) (allowed : Option (List String)) (url : String)
    → is_ok (validate_url p allowed url) ≡ permitted p allowed url
unfolding validate_url
validate_url_lem p allowed url =
    ground (arith, is_ok-check_host p allowed (p.urlparse url).hostname)

pub refused_url :
    (p : Parsers) (allowed : Option (List String)) (url : String)
    → permitted p allowed url ≡ false
    → (e : Error) × (validate_url p allowed url ≡ raised e)
refused_url p allowed url h = elim (Outcome-cases (validate_url p allowed url)) [
  | inr refuses ↦ refuses
  | inl (a, accepts) ↦
      let wrong : true ≡ false = sym (ap is_ok accepts) ∙ validate_url_lem p allowed url ∙ h in
      ground arith
]
