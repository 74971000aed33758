-- ===== src/Egress/Tests.antt =====
-- The HTTP client at concrete inputs.
use zlttbots.Prelude.{
  ℕ, zero, suc, ◌+◌, ◌<◌, ◌≡◌, refl, arith, true, false, str_eq, none, some, [], ◌∷◌, ok, raised,
  ◌*◌, if◌then◌else◌, is_ok,
}
use zlttbots.Prelude.Int.{pos}
use zlttbots.Egress.Url.{
  is_blocked_address, IpAddress, Parsers, validate_url, check_host, check_address, outside,
}
use zlttbots.Egress.Url.Laws.{validate_url_lem}
use zlttbots.Egress.Client.{Backoff, Reply, response, SafeHttpClient, exhausted, is_final, post}
use zlttbots.Egress.Client.Laws.{world_after, last_seen, waits, post_first, post-exhausted}

abbrev loopback : IpAddress
loopback = record {
  is_private = true;
  is_loopback = true;
  is_link_local = false;
  is_multicast = false;
  is_unspecified = false;
  is_reserved = false;
}

-- two URLs: one of a public host, and one of the machine itself
abbrev parsers : Parsers
parsers = record {
  urlparse = λ url. record {
    scheme = "https";
    hostname = some (if str_eq url "https://127.0.0.1/" then "127.0.0.1" else "example.org");
  };
  ip_address = λ host. if str_eq host "127.0.0.1" then some loopback else none;
  lower = λ s. s;
}

abbrev milliseconds : Backoff
milliseconds = record { Delay = ℕ; is_negative = λ _. false; doubled = λ d n. d * (n + 1) }

abbrev client : SafeHttpClient milliseconds
client = record { timeout = pos 10; retries = pos 3; backoff = 500; allowed_hosts = none }

-- a server that fails as often as the world says
abbrev flaky : ℕ → Reply × ℕ
flaky zero = (response (pos 200), 0)
flaky (suc n) = (response (pos 503), n)

validate_url_lem_example : is_ok (validate_url parsers none "https://127.0.0.1/") ≡ false
unfolding is_blocked_address
validate_url_lem_example = validate_url_lem parsers none "https://127.0.0.1/"

accepted : validate_url parsers none "https://example.org/" ≡ ok tt
unfolding validate_url check_host check_address outside
accepted = refl

fails_once : (k : ℕ) → k < 1 → is_final (flaky (world_after client flaky "u" k 1)).0 ≡ false
unfolding world_after
fails_once zero h = refl
fails_once (suc k) h = absurd (omega arith)

post_first_example :
    post client flaky "https://example.org/" parsers 1 ≡ (ok (response (pos 200)), 500 ∷ [], 0)
unfolding world_after waits
post_first_example =
    post_first client flaky "https://example.org/" 3 refl parsers accepted 1 1 (omega arith)
      fails_once refl

fails_always : (k : ℕ) → k < 3 → is_final (flaky (world_after client flaky "u" k 9)).0 ≡ false
unfolding world_after
fails_always zero h = refl
fails_always (suc zero) h = refl
fails_always (suc (suc zero)) h = refl
fails_always (suc (suc (suc k))) h = absurd (omega arith)

post-exhausted_example :
    post client flaky "https://example.org/" parsers 9
    ≡ (raised (exhausted "https://example.org/" (some (pos 503))), 500 ∷ 1000 ∷ [], 6)
unfolding world_after waits last_seen
post-exhausted_example =
    post-exhausted client flaky "https://example.org/" 3 refl parsers accepted 2 9 refl fails_always
