-- ===== src/Auth/Tokens.antt =====
-- The endpoints of main.py: the issue of a token, with the checks of subject and scopes, and the check
-- of the header that carries one. A time is a number of seconds.
pub mod Laws
use Prim.Native.Char.{code}
use Prim.Native.String.{len}
use zlttbots.Prelude.{
  ℕ, zero, suc, ◌*◌, ◌<◌, Bool, true, false, not, ◌&&◌, ◌||◌, ◌==◌, ltb, leb, String, Option, none,
  some, List, [], ◌∷◌, any_of, Outcome, ok, raised, Error, value_error, runtime_error, http_error,
  raise_if, ◌>>◌, ◌>>=◌, truthy, if◌then◌else◌, concat,
}
use zlttbots.Prelude.Int.{ℤ, pos, ltb_ℤ, ◌+ℤ◌}
use zlttbots.Prelude.Dict.{Dict}
use zlttbots.Prelude.Value.{Payload, text, int}
use zlttbots.Auth.Jwt.{
  text_length, Jose, Decoded, claims, invalid_token, invalid_audience, invalid_issuer,
  expired_signature, crashed, check_payload, encode, decode,
}

-- `_parse_positive_int_env`, for the value of the variable and what `int` makes of a text
unfoldable pub parse_positive_int_env : (String → Option ℤ) → Option String → ℤ → ℤ → ℤ → Outcome ℤ
parse_positive_int_env parse none default minimum maximum =
    raise_if (ltb_ℤ default minimum || ltb_ℤ maximum default)
      (runtime_error "CRITICAL: must be in range")
    >> ok default
parse_positive_int_env parse (some raw) default minimum maximum = elim (parse raw) [
  | none ↦ raised (runtime_error "CRITICAL: must be a valid integer.")
  | some n ↦
      raise_if (ltb_ℤ n minimum || ltb_ℤ maximum n) (runtime_error "CRITICAL: must be in range")
      >> ok n
]

-- a letter, a digit, or one of `:_-.`
abbrev pub is_subject_code : ℕ → Bool
is_subject_code n =
    (ltb 64 n && ltb n 91)
    || (ltb 96 n && ltb n 123)
    || (ltb 47 n && ltb n 58)
    || n == 58
    || n == 95
    || n == 45
    || n == 46

unfoldable pub every_code : (ℕ → Bool) → String → Bool
every_code p String.[] = true
every_code p (String.◌∷◌ c s) = p (code c) && every_code p s

-- `SUBJECT_PATTERN.fullmatch`
abbrev pub subject_pattern : String → Bool
subject_pattern s = truthy s && every_code is_subject_code s

-- `SCOPE_PATTERN.fullmatch`, where a blank passes as well
abbrev pub scope_pattern : String → Bool
scope_pattern s = every_code (λ n. is_subject_code n || n == 32) s

-- the settings of the module
pub record Settings : Type 0 where
  pub issuer : String
  pub audience : String
  pub secret : String
  pub ttl_minutes : ℕ

pub record TokenResponse : Type 0 where
  pub access_token : String
  pub token_type : String

abbrev pub bad_request : String → Error
bad_request detail = http_error 400 detail

-- the checks of a subject and of scopes that are stripped
unfoldable pub check_request : String → String → Outcome (Unit {0})
unfolding every_code text_length
check_request subject scopes =
    raise_if (not (truthy subject)) (bad_request "Subject is required")
    >> raise_if (ltb 128 (text_length subject)) (bad_request "Subject is too long")
    >> raise_if (not (subject_pattern subject)) (bad_request "Subject contains invalid characters")
    >> raise_if (ltb 512 (text_length scopes)) (bad_request "Scopes are too long")
    >> raise_if (not (scope_pattern scopes)) (bad_request "Scopes contain invalid characters")

abbrev pub claims_for : Settings → String → String → ℤ → Payload
claims_for s subject scopes now =
    ("iss", text s.issuer)
    ∷ ("aud", text s.audience)
    ∷ ("sub", text subject)
    ∷ ("scope", text scopes)
    ∷ ("iat", int now)
    ∷ ("exp", int (now +ℤ pos (60 * s.ttl_minutes)))
    ∷ []

abbrev pub key_headers : Payload
key_headers = ("kid", text "default") ∷ []

-- `strip` is `str.strip`
unfoldable pub issue_token :
    Jose → (String → String) → Settings → String → Option String → ℤ → Outcome TokenResponse
unfolding check_request
issue_token jo strip s subject scopes now =
    let normalized_subject = strip subject in
    let normalized_scopes = strip (elim scopes [ none ↦ "" | some t ↦ t ]) in
    check_request normalized_subject normalized_scopes
    >> ok (record {
      access_token =
          encode jo s.secret key_headers (claims_for s normalized_subject normalized_scopes now);
      token_type = "Bearer";
    })

-- what follows a prefix of a text
unfoldable pub strip_prefix : String → String → Option String
strip_prefix String.[] s = some s
strip_prefix (String.◌∷◌ c p) String.[] = none
strip_prefix (String.◌∷◌ c p) (String.◌∷◌ d s) =
    let rest = strip_prefix p s in if code c == code d then rest else none

abbrev pub unauthorized {ℓ} : {A : Type ℓ} → String → Outcome A
unauthorized detail = raised (http_error 401 detail)

-- the answer for what decoding comes to
abbrev pub answer_of : Decoded → Outcome Payload
answer_of (claims p) = ok p
answer_of expired_signature = unauthorized "Token expired"
answer_of invalid_audience = unauthorized "Invalid audience"
answer_of invalid_issuer = unauthorized "Invalid issuer"
answer_of invalid_token = unauthorized "Invalid token"
answer_of (crashed e) = raised e

abbrev pub required_claims : List String
required_claims = "exp" ∷ "iat" ∷ "sub" ∷ "iss" ∷ "aud" ∷ []

module _ (jo : Jose) (parse_int : String → Option ℤ) (s : Settings) (now : ℤ) where
  -- the check of a token
  unfoldable pub verify_token : String → Outcome Payload
  verify_token token =
      answer_of
        (decode jo s.secret (check_payload parse_int s.audience s.issuer required_claims now) token)

  unfoldable pub verify_bearer_token : Option String → Outcome Payload
  unfolding strip_prefix verify_token
  verify_bearer_token none = unauthorized "Missing bearer token"
  verify_bearer_token (some authorization) = elim (strip_prefix "Bearer " authorization) [
    | none ↦ unauthorized "Missing bearer token"
    | some token ↦ verify_token token
  ]

  -- with whether the token is active
  unfoldable pub introspect : Option String → Outcome (Bool × Payload)
  unfolding verify_bearer_token
  introspect authorization = verify_bearer_token authorization >>= λ payload. ok (true, payload)
