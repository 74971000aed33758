-- ===== src/Auth/Tokens/Laws.antt =====
-- A token that is issued is accepted until it runs out.
use Prim.Native.Char.{Char, code}
use Prim.Native.String.{◌++◌ as text_append}
use package.text.Mathlib.TextLemmas.{nil-append, cons-append, append-nil}
use zlttbots.Prelude.{
  ◌*◌, ◌≡◌, refl, ◌∙◌, Bool, true, false, ◌==◌, ==_iff, String, eq_refl, Option, none, some, List,
  [], ◌∷◌, ok, if◌then◌else◌, arith, ap, Bool-cases, inl, inr, string_eq,
}
use zlttbots.Prelude.Int.{ℤ, pos, leb_ℤ, ◌+ℤ◌}
use zlttbots.Prelude.Dict.{lookup, contains}
use zlttbots.Prelude.Value.{Value, Payload, text}
use zlttbots.Federation.Tokens.{Loaded, object, split_dot}
use zlttbots.Federation.Tokens.Laws.{no_dot, split_at_dot}
use zlttbots.Auth.Jwt.{
  Jose, Decoded, claims, expired_signature, check_payload, check_time, check_party, any_missing,
  encode, decode, b64encode, three_parts, check_signature, read_payload, signature_of,
  signing_input,
}
use zlttbots.Auth.Padding.{IsPadded, no_dot-b64encode, b64decode-encode}
use zlttbots.Auth.Tokens.{
  Settings, TokenResponse, check_request, claims_for, key_headers, issue_token, strip_prefix,
  verify_token, verify_bearer_token, required_claims, answer_of, unauthorized,
}

no_dot_splits : (a : String) → no_dot a ≡ true → split_dot a ≡ none
unfolding split_dot
no_dot_splits String.[] h = refl
no_dot_splits (String.◌∷◌ c a) h = elim (Bool-cases (code c == 46)) [
  | inl e ↦ absurd (ground arith)
  | inr e ↦ rw e (rw (no_dot_splits a (ground arith)) refl)
]

strip_prefix-cons :
    (c : Char) (p s t : String)
    → strip_prefix p s ≡ some t
    → strip_prefix (String.◌∷◌ c p) (String.◌∷◌ c s) ≡ some t
unfolding strip_prefix
strip_prefix-cons c p s t h =
    let alike : (code c == code c) ≡ true = (==_iff (code c) (code c)).1 refl in rw alike h

strip_prefix-append : (p t : String) → strip_prefix p (text_append p t) ≡ some t
unfolding strip_prefix
strip_prefix-append String.[] t = ap some (nil-append t)
strip_prefix-append (String.◌∷◌ c p) t =
    ap (strip_prefix (String.◌∷◌ c p)) (cons-append c p t)
    ∙ strip_prefix-cons c p _ t (strip_prefix-append p t)

missing_same :
    (ks : List String) (p q : Payload)
    → ((k : String) → lookup k q ≡ lookup k p)
    → any_missing ks q ≡ any_missing ks p
unfolding any_missing
missing_same [] p q same = refl
missing_same (k ∷ ks) p q same =
    let here : contains k q ≡ contains k p =
      ap (λ (o : Option Value). elim o as (λ _. Bool) [ none ↦ false | some _ ↦ true ]) (same k) in
    let rest = missing_same ks p q same in ground (arith, here, rest)

module _ (jo : Jose) (secret : String) (headers payload : Payload) where
  abbrev header_part : String
  header_part =
      b64encode jo (jo.codecs.dumps (("typ", text "JWT") ∷ ("alg", text "HS256") ∷ headers))

  abbrev payload_part : String
  payload_part = b64encode jo (jo.codecs.dumps payload)

  abbrev signature : jo.codecs.Bytes
  signature = signature_of jo secret (signing_input jo secret header_part payload_part)

  abbrev header_bytes : jo.codecs.Bytes
  header_bytes = jo.codecs.dumps (("typ", text "JWT") ∷ ("alg", text "HS256") ∷ headers)

  -- What json, base64 and hmac promise, at the parts of a token.
  pub record Lawful : Type 0 where
    pub header_no_dot : no_dot (jo.codecs.b64encode header_bytes) ≡ true
    pub payload_no_dot : no_dot (jo.codecs.b64encode (jo.codecs.dumps payload)) ≡ true
    pub signature_no_dot : no_dot (jo.codecs.b64encode signature) ≡ true
    pub signature_padded : IsPadded (jo.codecs.b64encode signature)
    pub payload_padded : IsPadded (jo.codecs.b64encode (jo.codecs.dumps payload))
    pub signature_decoded : jo.codecs.b64decode (jo.codecs.b64encode signature) ≡ some signature
    pub signature_equal : jo.codecs.compare_digest signature signature ≡ true
    pub payload_decoded :
        jo.codecs.b64decode (jo.codecs.b64encode (jo.codecs.dumps payload))
        ≡ some (jo.codecs.dumps payload)
    pub loaded :
        (q : Payload) × (jo.codecs.loads (jo.codecs.dumps payload) ≡ object q)
        × ((k : String) → lookup k q ≡ lookup k payload)

  three_parts_lem :
      (t a r b c : String)
      → split_dot t ≡ some (a, r)
      → split_dot r ≡ some (b, c)
      → split_dot c ≡ none
      → three_parts jo secret t ≡ some (a, b, c)
  unfolding three_parts
  three_parts_lem t a r b c first second third =
      rw (first, three_parts) (rw (second, three_parts) (rw third refl))

  parts_of_encoded :
      Lawful
      → three_parts jo secret (encode jo secret headers payload)
        ≡ some (header_part, payload_part, b64encode jo signature)
  unfolding encode
  parts_of_encoded laws =
      let sign = b64encode jo signature in
      let tail : text_append sign "" ≡ sign = append-nil sign in
      three_parts_lem _ header_part
        (text_append payload_part (text_append "." (text_append sign ""))) payload_part sign
        (split_at_dot header_part (text_append payload_part (text_append "." (text_append sign "")))
          (no_dot-b64encode jo header_bytes laws.header_no_dot))
        (split_at_dot payload_part (text_append sign "")
            (no_dot-b64encode jo (jo.codecs.dumps payload) laws.payload_no_dot)
          ∙ ap (λ t. some (payload_part, t)) tail)
        (no_dot_splits sign (no_dot-b64encode jo signature laws.signature_no_dot))

  decode-encode :
      (check : Loaded → Decoded)
      → Lawful
      → decode jo secret check (encode jo secret headers payload)
        ≡ check (jo.codecs.loads (jo.codecs.dumps payload))
  unfolding decode check_signature read_payload
  decode-encode check laws =
      rw (parts_of_encoded laws, decode)
        (rw
          (
            b64decode-encode jo signature laws.signature_padded laws.signature_decoded,
            check_signature,
          )
          (rw laws.signature_equal (
            rw
              (
                b64decode-encode jo (jo.codecs.dumps payload) laws.payload_padded
                    laws.payload_decoded,
                read_payload,
              )
              refl)))

module _ (jo : Jose) (strip : String → String) (parse_int : String → Option ℤ) (s : Settings) where
  nothing_missing :
      (subject scopes : String) (issued : ℤ) (q : Payload)
      → ((k : String) → lookup k q ≡ lookup k (claims_for s subject scopes issued))
      → any_missing required_claims q ≡ false
  unfolding any_missing lookup
  nothing_missing subject scopes issued q same =
      missing_same required_claims (claims_for s subject scopes issued) q same

  -- claims with the fields of those that are issued
  read_back :
      (subject scopes : String) (issued now : ℤ) (q : Payload)
      → ((k : String) → lookup k q ≡ lookup k (claims_for s subject scopes issued))
      → check_payload parse_int s.audience s.issuer required_claims now (object q)
        ≡ (if leb_ℤ (issued +ℤ pos (60 * s.ttl_minutes)) now then expired_signature else claims q)
  unfolding check_payload check_time check_party lookup
  read_back subject scopes issued now q same =
      let audience = eq_refl s.audience in
      let issuer = eq_refl s.issuer in
      rw (nothing_missing subject scopes issued q same) (
        rw (same "exp")
          (rw (same "aud", check_party) (rw audience (rw (same "iss") (rw issuer refl)))))

  -- Where the library jwt is missing and its stand-in _SimpleJWT serves: a subject and scopes that pass
  -- the checks get a token; as the bearer token of a later request it is
  -- accepted, and gives back the claims that were issued, until the minutes that it lives have passed,
  -- and refused with 401 from then on.
  pub issue-verify :
      (subject : String) (scopes : String) (issued now : ℤ)
      → check_request (strip subject) (strip scopes) ≡ ok tt
      → Lawful jo s.secret key_headers (claims_for s (strip subject) (strip scopes) issued)
      → (r : TokenResponse) × (q : Payload) × (issue_token jo strip s subject (some scopes) issued
          ≡ ok r)
        × (verify_bearer_token jo parse_int s now (some (text_append "Bearer " r.access_token)) ≡ (
            if leb_ℤ (issued +ℤ pos (60 * s.ttl_minutes)) now
            then unauthorized "Token expired"
            else ok q))
        × ((k : String)
            → lookup k q ≡ lookup k (claims_for s (strip subject) (strip scopes) issued))
  unfolding issue_token verify_bearer_token verify_token
  issue-verify subject scopes issued now fine laws =
      let (q, found, same) = laws.loaded in
      let payload = claims_for s (strip subject) (strip scopes) issued in
      let token = encode jo s.secret key_headers payload in
      let check = check_payload parse_int s.audience s.issuer required_claims now in
      let decoded =
        decode-encode jo s.secret key_headers payload check laws
        ∙ ap check found
        ∙ read_back (strip subject) (strip scopes) issued now q same in
      (
        record { access_token = token; token_type = "Bearer" },
        q,
        rw fine refl,
        rw (strip_prefix-append "Bearer " token, verify_bearer_token)
            (ap answer_of decoded ∙ answered q (leb_ℤ (issued +ℤ pos (60 * s.ttl_minutes)) now)),
        same,
      )
    where
      answered :
          (q : Payload) (b : Bool)
          → answer_of (if b then expired_signature else claims q)
            ≡ (if b then unauthorized "Token expired" else ok q)
      answered q true = refl
      answered q false = refl
