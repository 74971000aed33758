-- ===== src/Auth/Tests.antt =====
-- A token of one subject, from its issue to its check.
use Prim.Native.String.{◌++◌ as text_append}
use zlttbots.Prelude.{ℕ, ◌≡◌, refl, ◌==◌, String, str_eq, none, some, ok, if◌then◌else◌, string_eq}
use zlttbots.Prelude.Int.{pos, ◌+ℤ◌}
use zlttbots.Prelude.Dict.{lookup}
use zlttbots.Prelude.Value.{Payload}
use zlttbots.Federation.Tokens.{Codecs, object}
use zlttbots.Auth.Jwt.{Jose, text_length, padding, equals_signs}
use zlttbots.Auth.Tokens.{
  Settings, TokenResponse, check_request, claims_for, key_headers, issue_token, verify_bearer_token,
  every_code,
}
use zlttbots.Auth.Tokens.Laws.{Lawful, issue-verify}

abbrev settings : Settings
settings = record {
  issuer = "https://auth";
  audience = "zlttbots";
  secret = "a secret";
  ttl_minutes = 30;
}

abbrev issued_claims : Payload
issued_claims = claims_for settings "crawler" "read" (pos 100)

-- the byte strings of one token: a document, and a digest
abbrev codecs : Codecs
codecs = record {
  Bytes = ℕ;
  dumps = λ p. 0;
  loads = λ b. object issued_claims;
  b64encode = λ b. if b == 0 then "AA==" else "BB==";
  b64decode = λ s. if str_eq s "AA==" then some 0 else some 1;
  hmac = λ secret b. 1;
  compare_digest = λ b c. b == c;
}

abbrev jose : Jose
jose = record { codecs = codecs; utf8 = λ s. 2 }

lawful : Lawful jose "a secret" key_headers issued_claims
unfolding padding text_length equals_signs
lawful = record {
  header_no_dot = refl;
  payload_no_dot = refl;
  signature_no_dot = refl;
  signature_padded = ("BB", refl, refl);
  payload_padded = ("AA", refl, refl);
  signature_decoded = refl;
  signature_equal = refl;
  payload_decoded = refl;
  loaded = (issued_claims, refl, λ k. refl);
}

issue-verify_example :
    (r : TokenResponse) × (q : Payload) × (issue_token jose
        (λ s. s)
        settings
        "crawler"
        (some "read")
        (pos 100)
      ≡ ok r)
    × (verify_bearer_token jose
          (λ s. none)
          settings
          (pos 200)
          (some (text_append "Bearer " r.access_token))
        ≡ ok q)
    × ((k : String) → lookup k q ≡ lookup k issued_claims)
unfolding check_request every_code text_length ◌+ℤ◌
issue-verify_example =
    issue-verify jose (λ s. s) (λ s. none) settings "crawler" "read" (pos 100) (pos 200) refl lawful
