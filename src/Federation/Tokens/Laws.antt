-- ===== src/Federation/Tokens/Laws.antt =====
-- A token that was made with the secret decodes to its claims.
use Prim.Native.Char.{Char, code}
use Prim.Native.String.{◌++◌ as text_append}
use text.Mathlib.TextLemmas.{nil-append, cons-append, append-nil}
use zlttbots.Prelude.{
  ◌≡◌, refl, ◌∙◌, Bool, true, false, ◌==◌, String, some, ok, if◌then◌else◌, arith, ap, Bool-cases,
  inl, inr, string_eq,
}
use zlttbots.Prelude.Dict.{lookup}
use zlttbots.Prelude.Value.{Payload}
use zlttbots.Federation.Tokens.{
  object, Codecs, encode_signed_claims, split_dot, decode_parts, decode_task_token,
}

-- no character of a text is a dot
abbrev pub no_dot : String → Bool
no_dot String.[] = true
no_dot (String.◌∷◌ c s) = if code c == 46 then false else no_dot s

-- What the documentation of the three modules promises, at the claims of a token: decoding gives back
-- what was encoded, whose text has no dot, an object keeps its fields, and a digest equals itself.
pub record Lawful (co : Codecs) (secret : String) (claims : Payload) : Type 0 where
  pub payload_decoded : co.b64decode (co.b64encode (co.dumps claims)) ≡ some (co.dumps claims)
  pub payload_no_dot : no_dot (co.b64encode (co.dumps claims)) ≡ true
  pub signature_decoded :
      co.b64decode (co.b64encode (co.hmac secret (co.dumps claims)))
      ≡ some (co.hmac secret (co.dumps claims))
  pub signature_equal :
      co.compare_digest (co.hmac secret (co.dumps claims)) (co.hmac secret (co.dumps claims)) ≡ true
  pub loaded :
      (q : Payload) × (co.loads (co.dumps claims) ≡ object q)
      × ((k : String) → lookup k q ≡ lookup k claims)

split_here : (r : String) → split_dot (text_append "." r) ≡ some ("", r)
unfolding split_dot
split_here r = ap split_dot (cons-append "." "" r ∙ ap (String.◌∷◌ ".") (nil-append r))

split_later :
    (c : Char) (s a b : String)
    → (code c == 46) ≡ false
    → split_dot s ≡ some (a, b)
    → split_dot (String.◌∷◌ c s) ≡ some (String.◌∷◌ c a, b)
unfolding split_dot
split_later c s a b h e = rw h (rw (e, split_dot) refl)

pub split_at_dot :
    (a r : String) → no_dot a ≡ true → split_dot (text_append a (text_append "." r)) ≡ some (a, r)
split_at_dot String.[] r h = ap split_dot (nil-append (text_append "." r)) ∙ split_here r
split_at_dot (String.◌∷◌ c a) r h = elim (Bool-cases (code c == 46)) [
  | inl e ↦ absurd (ground arith)
  | inr e ↦
      ap split_dot (cons-append c a (text_append "." r))
      ∙ split_later c _ a r e (split_at_dot a r (ground arith))
]

-- A token that was made with a secret decodes under the same secret to an object with the same fields.
pub decode-encode :
    (co : Codecs) (secret : String) (claims : Payload) (laws : Lawful co secret claims)
    → (q : Payload) × (decode_task_token co secret (encode_signed_claims co secret claims)
        ≡ ok (some q))
      × ((k : String) → lookup k q ≡ lookup k claims)
unfolding decode_task_token encode_signed_claims decode_parts
decode-encode co secret claims laws =
    let (q, found, same) = laws.loaded in
    let b = co.dumps claims in
    let sign = co.b64encode (co.hmac secret b) in
    let cut : split_dot (encode_signed_claims co secret claims) ≡ some (co.b64encode b, sign) =
      split_at_dot (co.b64encode b) (text_append sign "") laws.payload_no_dot
      ∙ ap (λ t. some (co.b64encode b, t)) (append-nil sign) in
    (
      q,
      rw (cut, decode_parts)
          (rw laws.payload_decoded
            (rw laws.signature_decoded (rw laws.signature_equal (rw found refl)))),
      same,
    )
