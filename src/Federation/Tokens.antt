-- ===== src/Federation/Tokens.antt =====
-- `encode_signed_claims` of the federation and `decode_task_token` of the scheduler. What json, base64
-- and hmac do is a parameter.
pub mod Laws
use Prim.Native.Char.{code}
use zlttbots.Prelude.{
  ℕ, Bool, true, false, not, ◌==◌, String, Option, none, some, List, [], ◌∷◌, Outcome, ok, raised,
  http_error, raise_if, ◌>>◌, ◌>>=◌, concat, if◌then◌else◌,
}
use zlttbots.Prelude.Value.{Value, Payload}

-- what `json.loads` makes of some bytes: an error, a value that is not an object, or an object
pub data Loaded : Type 0 where
  malformed other : Loaded
  object : Payload → Loaded

pub record Codecs : Type 1 where
  pub Bytes : Type 0
  -- `json.dumps` with sorted keys, in UTF-8
  pub dumps : Payload → Bytes
  pub loads : Bytes → Loaded
  pub b64encode : Bytes → String
  -- `none` is its `binascii.Error`, or the `ValueError` of a text that is not ASCII
  pub b64decode : String → Option Bytes
  -- the digest of some bytes under a secret
  pub hmac : String → Bytes → Bytes
  pub compare_digest : Bytes → Bytes → Bool

module _ (co : Codecs) where
  unfoldable pub encode_signed_claims : String → Payload → String
  encode_signed_claims secret claims =
      let payload = co.dumps claims in
      concat (co.b64encode payload ∷ "." ∷ co.b64encode (co.hmac secret payload) ∷ [])

-- `token.split('.', 1)`, where `none` is a token without a dot
unfoldable pub split_dot : String → Option (String × String)
split_dot String.[] = none
split_dot (String.◌∷◌ c s) =
    let rest = split_dot s in
    if code c == 46
    then some ("", s)
    else elim rest [ none ↦ none | some (a, b) ↦ some (String.◌∷◌ c a, b) ]

-- without the text of the exception that the code adds to the detail
abbrev pub unauthorized {ℓ} : {A : Type ℓ} → String → Outcome A
unauthorized detail = raised (http_error 401 detail)

abbrev pub format_error : String
format_error = "invalid task token format"

-- `json.loads` behind the check of the signature; a value that is not an object is `none`
abbrev pub claims_of : Loaded → Outcome (Option Payload)
claims_of malformed = unauthorized "invalid task token payload"
claims_of other = ok none
claims_of (object p) = ok (some p)

module _ (co : Codecs) where
  -- the two parts of a token, decoded
  unfoldable pub decode_parts : String → Outcome (co.Bytes × co.Bytes)
  decode_parts token = elim (split_dot token) [
    | none ↦ unauthorized format_error
    | some (payload_b64, signature_b64) ↦ elim (co.b64decode payload_b64) [
      | none ↦ unauthorized format_error
      | some payload ↦ elim (co.b64decode signature_b64) [
        | none ↦ unauthorized format_error
        | some signature ↦ ok (payload, signature)
      ]
    ]
  ]

  unfoldable pub decode_task_token : String → String → Outcome (Option Payload)
  unfolding decode_parts
  decode_task_token secret token = decode_parts token >>= λ parts.
      raise_if (not (co.compare_digest parts.1 (co.hmac secret parts.0)))
        (http_error 401 "invalid task token signature")
      >> claims_of (co.loads parts.0)
