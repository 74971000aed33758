-- ===== src/Maturity/Security/Laws.antt =====
-- What the secret manager gives back, and who passes a policy.
use zlttbots.Prelude.{
  ◌≡◌, refl, inl, inr, String, str_eq, string_eq, [], ◌∷◌, ok, arith, Bool-cases, if◌then◌else◌,
  All, eq_iff,
}
use zlttbots.Prelude.Int.{ℤ}
use zlttbots.Prelude.Dict.{Dict, insert, lookup-insert}
use zlttbots.Maturity.Security.{SecretRecord, SecretManager, put, get}

-- After a secret is put it reads as the new value, and every other name reads as it did, also where it
-- is not found.
pub get-put :
    (name other value : String) (at : ℤ) (m : SecretManager)
    → get other (put name value at m) ≡ (if str_eq name other then ok value else get other m)
unfolding get put
get-put name other value at m =
    let found =
      lookup-insert name other (record { name = name; value = value; rotated_at = at }) m.secrets in
    elim (Bool-cases (str_eq name other)) [
      | inl e ↦ rw (found, get) (rw e refl)
      | inr e ↦ rw (found, get) (rw e refl)
    ]

-- every secret stands under its own name
abbrev pub IsKeyed : SecretManager → Type 0
IsKeyed m = All (λ e. e.0 ≡ e.1.name) m.secrets

insert-keyed :
    (name : String) (r : SecretRecord) (d : Dict String SecretRecord)
    → name ≡ r.name
    → All (λ e. e.0 ≡ e.1.name) d
    → All (λ e. e.0 ≡ e.1.name) (insert name r d)
unfolding insert
insert-keyed name r [] n h = (n, tt)
insert-keyed name r ((j, s) ∷ d) n (now, h) = elim (Bool-cases (str_eq j name)) [
  | inl e ↦ rw e (ground (arith, eq_iff j name), h)
  | inr e ↦ rw e (now, insert-keyed name r d n h)
]

pub put-IsKeyed :
    (name value : String) (at : ℤ) (m : SecretManager) → IsKeyed m → IsKeyed (put name value at m)
unfolding put
put-IsKeyed name value at m h = insert-keyed name _ m.secrets refl h
