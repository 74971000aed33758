-- ===== src/Auth/Padding.antt =====
-- Stripping the padding of a base64 text and putting it back.
use Prim.Native.Char.{Char, code}
use Prim.Native.String.{◌++◌ as text_append}
use package.text.Mathlib.TextLemmas.{nil-append, cons-append}
use zlttbots.Prelude.{
  ℕ, zero, suc, ◌≡◌, refl, ◌∙◌, ap, sym, Bool, true, false, ◌==◌, String, some, if◌then◌else◌,
  arith, Bool-cases, inl, inr,
}
use zlttbots.Federation.Tokens.Laws.{no_dot}
use zlttbots.Auth.Jwt.{
  Jose, equals_signs, padding, keep_unless_last, rstrip_equals, b64encode, b64decode,
}

-- no character of a text is an equals sign
abbrev pub no_equals : String → Bool
no_equals String.[] = true
no_equals (String.◌∷◌ c s) = if code c == 61 then false else no_equals s

-- a text of the alphabet of base64, padded to a multiple of four characters
abbrev pub IsPadded : String → Type 0
IsPadded out = (body : String) × (out ≡ text_append body (padding body)) × (no_equals body ≡ true)

rstrip-equals_signs : (n : ℕ) → rstrip_equals (equals_signs n) ≡ ""
unfolding rstrip_equals equals_signs keep_unless_last
rstrip-equals_signs zero = refl
rstrip-equals_signs (suc n) =
    ap rstrip_equals
      (cons-append "=" "" (equals_signs n) ∙ ap (String.◌∷◌ "=") (nil-append (equals_signs n)))
    ∙ ap (keep_unless_last "=") (rstrip-equals_signs n)

kept : (c : Char) (s : String) → (code c == 61) ≡ false → keep_unless_last c s ≡ String.◌∷◌ c s
unfolding keep_unless_last
kept c String.[] h = rw h refl
kept c (String.◌∷◌ d s) h = refl

rstrip-append :
    (body : String) (n : ℕ)
    → no_equals body ≡ true
    → rstrip_equals (text_append body (equals_signs n)) ≡ body
unfolding rstrip_equals
rstrip-append String.[] n h = ap rstrip_equals (nil-append (equals_signs n)) ∙ rstrip-equals_signs n
rstrip-append (String.◌∷◌ c body) n h = elim (Bool-cases (code c == 61)) [
  | inl e ↦ absurd (ground arith)
  | inr e ↦
      ap rstrip_equals (cons-append c body (equals_signs n))
      ∙ ap (keep_unless_last c) (rstrip-append body n (ground arith))
      ∙ kept c body e
]

no_dot-kept :
    (c : Char) (s : String) → no_dot (String.◌∷◌ c s) ≡ true → no_dot (keep_unless_last c s) ≡ true
unfolding keep_unless_last
no_dot-kept c String.[] h = elim (Bool-cases (code c == 61)) [ inl e ↦ rw e refl | inr e ↦ rw e h ]
no_dot-kept c (String.◌∷◌ d s) h = h

no_dot-rstrip : (s : String) → no_dot s ≡ true → no_dot (rstrip_equals s) ≡ true
unfolding rstrip_equals
no_dot-rstrip String.[] h = refl
no_dot-rstrip (String.◌∷◌ c s) h = elim (Bool-cases (code c == 46)) [
  | inl e ↦ absurd (ground arith)
  | inr e ↦ no_dot-kept c (rstrip_equals s) (rw e (no_dot-rstrip s (ground arith)))
]

module _ (jo : Jose) (raw : jo.codecs.Bytes) where
  pub no_dot-b64encode : no_dot (jo.codecs.b64encode raw) ≡ true → no_dot (b64encode jo raw) ≡ true
  unfolding b64encode
  no_dot-b64encode h = no_dot-rstrip (jo.codecs.b64encode raw) h

  -- The padding that encoding strips is that which decoding puts back.
  pub b64decode-encode :
      IsPadded (jo.codecs.b64encode raw)
      → jo.codecs.b64decode (jo.codecs.b64encode raw) ≡ some raw
      → b64decode jo (b64encode jo raw) ≡ some raw
  unfolding b64encode b64decode padding
  b64decode-encode (body, out, plain) back =
      let stripped : rstrip_equals (jo.codecs.b64encode raw) ≡ body =
        ap rstrip_equals out ∙ rstrip-append body _ plain in
      ap (λ s. jo.codecs.b64decode (text_append s (padding s))) stripped
      ∙ ap jo.codecs.b64decode (sym out)
      ∙ back
