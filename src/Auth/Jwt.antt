-- ===== src/Auth/Jwt.antt =====
-- The class `_SimpleJWT`, which stands in where the library jwt is missing. json, hmac, the
-- module base64 and the bytes of a text are parameters.
use Prim.Native.Char.{Char, code}
use Prim.Native.String.{◌++◌ as text_append}
use zlttbots.Prelude.{
  ℕ, zero, suc, ◌-◌, ◌%◌, ◌==◌, Bool, false, not, String, str_eq, string_eq, Option, none, some,
  List, [], ◌∷◌, any_of, Outcome, ok, raised, Error, value_error, type_error, concat, if◌then◌else◌,
}
use zlttbots.Prelude.Int.{ℤ, pos, leb_ℤ}
use zlttbots.Prelude.Dict.{lookup, contains}
use zlttbots.Prelude.Value.{Value, Payload, null, bool, int, text, list, dict}
use zlttbots.Federation.Tokens.{Loaded, malformed, other, object, Codecs, split_dot}

pub record Jose : Type 1 where
  pub codecs : Codecs
  pub utf8 : String → codecs.Bytes

-- What decoding comes to: the claims, one of the errors of the class, or an exception that is not one
-- of them.
pub data Decoded : Type 0 where
  claims : Payload → Decoded
  invalid_token invalid_audience invalid_issuer expired_signature : Decoded
  crashed : Error → Decoded

-- `int(payload.get("exp", 0))`, for what `int` makes of a text
abbrev pub int_of : (String → Option ℤ) → Option Value → Outcome ℤ
int_of parse none = ok (pos 0)
int_of parse (some (int n)) = ok n
int_of parse (some (bool b)) = ok (if b then pos 1 else pos 0)
int_of parse (some (text s)) = elim (parse s) [
  | none ↦ raised (value_error "invalid literal for int() with base 10")
  | some n ↦ ok n
]
int_of parse (some null) = raised (type_error "int() argument")
int_of parse (some (list xs)) = raised (type_error "int() argument")
int_of parse (some (dict fs)) = raised (type_error "int() argument")

-- `payload.get(key) == expected`, for a text
abbrev pub claim_is : String → Option Value → Bool
claim_is expected (some (text s)) = str_eq s expected
claim_is expected _ = false

-- the claims among the required ones that are missing
unfoldable pub any_missing : List String → Payload → Bool
any_missing required payload = any_of (λ c. not (contains c payload)) required

module _ (parse_int : String → Option ℤ) (audience issuer : String) (required : List String)
    (now : ℤ) where
  -- the checks behind the time at which the token runs out
  unfoldable pub check_party : Payload → Decoded
  check_party payload =
      if not (claim_is audience (lookup "aud" payload))
      then invalid_audience
      else if not (claim_is issuer (lookup "iss" payload))
      then invalid_issuer
      else claims payload

  unfoldable pub check_time : Payload → Outcome ℤ → Decoded
  unfolding check_party
  check_time payload (raised e) = crashed e
  check_time payload (ok exp) = if leb_ℤ exp now then expired_signature else check_party payload

  unfoldable pub check_payload : Loaded → Decoded
  unfolding check_time any_missing
  check_payload malformed = crashed (value_error "not JSON")
  check_payload other = crashed (type_error "not an object")
  check_payload (object payload) =
      if any_missing required payload
      then invalid_token
      else check_time payload (int_of parse_int (lookup "exp" payload))

-- the characters of a text
unfoldable pub text_length : String → ℕ
text_length String.[] = 0
text_length (String.◌∷◌ c s) = suc (text_length s)

unfoldable pub equals_signs : ℕ → String
equals_signs zero = ""
equals_signs (suc n) = text_append "=" (equals_signs n)

-- `"=" * (-len(data) % 4)`
unfoldable pub padding : String → String
unfolding text_length equals_signs
padding s = equals_signs ((4 - text_length s % 4) % 4)

-- a character before a text without equals signs at its end
unfoldable pub keep_unless_last : Char → String → String
keep_unless_last c String.[] = if code c == 61 then "" else String.◌∷◌ c ""
keep_unless_last c (String.◌∷◌ d s) = String.◌∷◌ c (String.◌∷◌ d s)

-- `.rstrip("=")`
unfoldable pub rstrip_equals : String → String
unfolding keep_unless_last
rstrip_equals String.[] = ""
rstrip_equals (String.◌∷◌ c s) = keep_unless_last c (rstrip_equals s)

module _ (jo : Jose) where
  -- `_b64encode` and `_b64decode`, over the functions of the module base64
  unfoldable pub b64encode : jo.codecs.Bytes → String
  unfolding rstrip_equals
  b64encode raw = rstrip_equals (jo.codecs.b64encode raw)

  unfoldable pub b64decode : String → Option jo.codecs.Bytes
  unfolding padding
  b64decode s = jo.codecs.b64decode (text_append s (padding s))

module _ (jo : Jose) (secret : String) where
  abbrev pub signature_of : String → jo.codecs.Bytes
  signature_of signing_input = jo.codecs.hmac secret (jo.utf8 signing_input)

  -- `f"{header_part}.{payload_part}"`
  abbrev pub signing_input : String → String → String
  signing_input header_part payload_part = concat (header_part ∷ "." ∷ payload_part ∷ [])

  -- for HS256, which is all that the settings let pass
  unfoldable pub encode : Payload → Payload → String
  unfolding b64encode
  encode headers payload =
      let header_part =
        b64encode jo (jo.codecs.dumps (("typ", text "JWT") ∷ ("alg", text "HS256") ∷ headers)) in
      let payload_part = b64encode jo (jo.codecs.dumps payload) in
      concat (
        header_part
        ∷ "."
        ∷ payload_part
        ∷ "."
        ∷ b64encode jo (signature_of (signing_input header_part payload_part))
        ∷ [])

  -- `token.split(".")` into three parts
  unfoldable pub three_parts : String → Option (String × String × String)
  three_parts token = elim (split_dot token) [
    | none ↦ none
    | some (header, rest) ↦ elim (split_dot rest) [
      | none ↦ none
      | some (payload, signature) ↦ elim (split_dot signature) [
        | none ↦ some (header, payload, signature)
        | some _ ↦ none
      ]
    ]
  ]

  module _ (check : Loaded → Decoded) where
    -- the payload behind the signature
    unfoldable pub read_payload : Option jo.codecs.Bytes → Decoded
    read_payload none = crashed (value_error "incorrect padding")
    read_payload (some payload) = check (jo.codecs.loads payload)

    unfoldable pub check_signature : String → String → Option jo.codecs.Bytes → Decoded
    unfolding read_payload b64decode
    check_signature header payload none = crashed (value_error "incorrect padding")
    check_signature header payload (some signature) =
        if jo.codecs.compare_digest (signature_of (signing_input header payload)) signature
        then read_payload (b64decode jo payload)
        else invalid_token

    unfoldable pub decode : String → Decoded
    unfolding check_signature three_parts b64decode
    decode token = elim (three_parts token) [
      | none ↦ invalid_token
      | some (header, payload, signature) ↦ check_signature header payload (b64decode jo signature)
    ]
