-- ===== src/Prelude/Lists.antt =====
-- Lists measured and indexed by native numbers, under the library's names, and the list
-- comprehension `[x for x in xs if p(x)]` over a Boolean test.
use Prim.Native.Nat.{ℕ, zero, suc, ◌+◌, ◌-◌, ◌<◌, min, ◌≤◌}
use mathlib.Core.Path.{ap, ◌≡◌, refl}
use mathlib.Core.Bool.{Bool, true, false, ◌&&◌, ◌||◌}
use mathlib.Core.List.{map, List, [], ◌∷◌, ◌++◌}
use mathlib.Core.Option.{Option, none, some}
use native.Mathlib.Omega.{arith}
use zlttbots.Prelude.Tests.{if◌then◌else◌, Bool-cases}
use mathlib.Core.Logic.{inl, inr}

module _ {ℓ} {A : Type ℓ} where
  abbrev pub length : List A → ℕ
  length [] = 0
  length (x ∷ xs) = suc (length xs)

  abbrev pub get_elem? : List A → ℕ → Option A
  get_elem? [] i = none
  get_elem? (x ∷ xs) zero = some x
  get_elem? (x ∷ xs) (suc i) = get_elem? xs i

  abbrev pub take : ℕ → List A → List A
  take zero xs = []
  take (suc n) [] = []
  take (suc n) (x ∷ xs) = x ∷ take n xs

  abbrev pub drop : ℕ → List A → List A
  drop zero xs = xs
  drop (suc n) [] = []
  drop (suc n) (x ∷ xs) = drop n xs

  abbrev pub keep_if : (A → Bool) → List A → List A
  keep_if p [] = []
  keep_if p (x ∷ xs) = if p x then x ∷ keep_if p xs else keep_if p xs

  abbrev pub all_of : (A → Bool) → List A → Bool
  all_of p [] = true
  all_of p (x ∷ xs) = p x && all_of p xs

  abbrev pub any_of : (A → Bool) → List A → Bool
  any_of p [] = false
  any_of p (x ∷ xs) = p x || any_of p xs

  -- `P` holds of every item.
  abbrev pub All {κ} : (A → Type κ) → List A → Type κ
  All P [] = Unit
  All P (x ∷ xs) = P x × All P xs

  pub length-append : (xs ys : List A) → length (xs ++ ys) ≡ length xs + length ys
  length-append [] ys = omega arith
  length-append (x ∷ xs) ys = omega (arith, length-append xs ys)

  pub take-append-drop : (n : ℕ) (xs : List A) → take n xs ++ drop n xs ≡ xs
  take-append-drop zero xs = refl
  take-append-drop (suc n) [] = refl
  take-append-drop (suc n) (x ∷ xs) = rw (take-append-drop n xs)

  pub length-take : (n : ℕ) (xs : List A) → length (take n xs) ≡ min n (length xs)
  length-take zero xs = omega arith
  length-take (suc n) [] = omega arith
  length-take (suc n) (x ∷ xs) = omega (arith, length-take n xs)

  pub length-drop : (n : ℕ) (xs : List A) → length (drop n xs) ≡ length xs - n
  length-drop zero xs = omega arith
  length-drop (suc n) [] = omega arith
  length-drop (suc n) (x ∷ xs) = omega (arith, length-drop n xs)

  pub get_elem?_total : (xs : List A) (i : ℕ) → i < length xs → (x : A) × (get_elem? xs i ≡ some x)
  get_elem?_total [] i h = elim h [ ]
  get_elem?_total (x ∷ xs) zero h = (x, refl)
  get_elem?_total (x ∷ xs) (suc i) h = get_elem?_total xs i (omega arith)

  pub All-append {κ} : (P : A → Type κ) (xs ys : List A) → All P xs → All P ys → All P (xs ++ ys)
  All-append P [] ys hx hy = hy
  All-append P (x ∷ xs) ys hx hy = (hx.0, All-append P xs ys hx.1 hy)

  pub All-take {κ} : (P : A → Type κ) (n : ℕ) (xs : List A) → All P xs → All P (take n xs)
  All-take P zero xs h = tt
  All-take P (suc n) [] h = tt
  All-take P (suc n) (x ∷ xs) h = (h.0, All-take P n xs h.1)

  pub keep_if-append :
      (p : A → Bool) (xs ys : List A) → keep_if p (xs ++ ys) ≡ keep_if p xs ++ keep_if p ys
  keep_if-append p [] ys = refl
  keep_if-append p (x ∷ xs) ys = ground (arith, keep_if-append p xs ys)

  -- What a comprehension keeps passes its test.
  pub All-keep_if : (p : A → Bool) (xs : List A) → All (λ x. p x ≡ true) (keep_if p xs)
  All-keep_if p [] = tt
  All-keep_if p (x ∷ xs) = ground (arith, All-keep_if p xs)

  pub All_get_elem? {κ} :
      (P : A → Type κ) (xs : List A) (i : ℕ) (x : A) → All P xs → get_elem? xs i ≡ some x → P x
  All_get_elem? P [] i x h e = cc
  All_get_elem? P (y ∷ ys) zero x h e = let q : y ≡ x = cc in rw (← q) h.0
  All_get_elem? P (y ∷ ys) (suc i) x h e = All_get_elem? P ys i x h.1 e

  pub length-keep_if-le : (p : A → Bool) (xs : List A) → length (keep_if p xs) ≤ length xs
  length-keep_if-le p [] = omega arith
  length-keep_if-le p (x ∷ xs) = ground (arith, length-keep_if-le p xs)

  pub take_all : (n : ℕ) (xs : List A) → length xs ≤ n → take n xs ≡ xs
  take_all zero [] h = refl
  take_all zero (x ∷ xs) h = absurd (omega arith)
  take_all (suc n) [] h = refl
  take_all (suc n) (x ∷ xs) h = rw (take_all n xs (omega arith))

  pub All-keep_if_sub {κ} :
      (P : A → Type κ) (p : A → Bool) (xs : List A) → All P xs → All P (keep_if p xs)
  All-keep_if_sub P p [] h = h
  All-keep_if_sub P p (x ∷ xs) h = elim (Bool-cases (p x)) [
    | inl e ↦ rw e (h.0, All-keep_if_sub P p xs h.1)
    | inr e ↦ rw e (All-keep_if_sub P p xs h.1)
  ]

module _ {ℓ} {A : Type ℓ} where
  -- A write out of bounds changes nothing.
  abbrev pub set : List A → ℕ → A → List A
  set [] i v = []
  set (x ∷ xs) zero v = v ∷ xs
  set (x ∷ xs) (suc i) v = x ∷ set xs i v

  -- Python's `enumerate`, from a given number on.
  abbrev pub enumerate : ℕ → List A → List (ℕ × A)
  enumerate k [] = []
  enumerate k (x ∷ xs) = (k, x) ∷ enumerate (suc k) xs

  pub All-set {κ} :
      (P : A → Type κ) (xs : List A) (i : ℕ) (v : A) → All P xs → P v → All P (set xs i v)
  All-set P [] i v h p = h
  All-set P (x ∷ xs) zero v h p = (p, h.1)
  All-set P (x ∷ xs) (suc i) v h p = (h.0, All-set P xs i v h.1 p)

  pub All-mono {κ μ} :
      {P : A → Type κ} {Q : A → Type μ} (xs : List A) → ((x : A) → P x → Q x) → All P xs → All Q xs
  All-mono [] f h = tt
  All-mono (x ∷ xs) f h = (f x h.0, All-mono xs f h.1)

module _ {ℓ} {A : Type ℓ} where
  -- Every pair of an enumeration holds the item of its place.
  pub enumerate-get_elem? :
      (k : ℕ) (xs : List A)
      → All (λ c. (j : ℕ) × (c.0 ≡ j + k) × (get_elem? xs j ≡ some c.1)) (enumerate k xs)
  enumerate-get_elem? k [] = tt
  enumerate-get_elem? k (x ∷ xs) = (
    (0, omega arith, refl),
    All-mono (enumerate (suc k) xs) (λ c (j, e, g). (suc j, omega arith, g))
        (enumerate-get_elem? (suc k) xs),
  )

  -- What holds of all that a test keeps of an enumeration holds at each place that passes the test.
  pub All_enumerate {κ} :
      (P : ℕ × A → Type κ) (p : ℕ × A → Bool) (k j i : ℕ) (xs : List A) (x : A)
      → All P (keep_if p (enumerate k xs))
      → get_elem? xs j ≡ some x
      → i ≡ j + k
      → p (i, x) ≡ true
      → P (i, x)
  All_enumerate P p k j i [] x h e q t = cc
  All_enumerate P p k zero i (y ∷ ys) x h e q t =
      let same : ◌≡◌ {A = ℕ × A} (k, y) (i, x) = ground arith in
      let kept : p (k, y) ≡ true = rw same t in rw (← same) ((rw kept at h).0)
  All_enumerate P p k (suc j) i (y ∷ ys) x h e q t =
      All_enumerate P p (suc k) j i ys x (tail_of (p (k, y)) h) e (omega arith) t
    where
      tail_of :
          (b : Bool)
          → All P (
              if b
              then (k, y) ∷ keep_if p (enumerate (suc k) ys)
              else keep_if p (enumerate (suc k) ys))
          → All P (keep_if p (enumerate (suc k) ys))
      tail_of true h = h.1
      tail_of false h = h

module _ {ℓ κ} {A : Type ℓ} {B : Type κ} where
  pub length-map : (xs : List A) (f : A → B) → length (map f xs) ≡ length xs
  length-map [] f = refl
  length-map (x ∷ xs) f = ap suc (length-map xs f)

-- What holds of all that a test keeps holds of each item that passes it.
pub All-of_keep_if {ℓ κ} :
    {A : Type ℓ} (P : A → Type κ) (p : A → Bool) (xs : List A)
    → All P (keep_if p xs)
    → All (λ x. p x ≡ true → P x) xs
All-of_keep_if P p [] h = tt
All-of_keep_if P p (x ∷ xs) h = elim (Bool-cases (p x)) [
  | inl e ↦ let (q, rest) = rw e at h in ((λ _. q), All-of_keep_if P p xs rest)
  | inr e ↦ ((λ yes. absurd (ground arith)), All-of_keep_if P p xs (rw e at h))
]

-- What holds of all items holds of those that are kept, which pass the test.
pub All-keep_if_both {ℓ κ} :
    {A : Type ℓ} (P : A → Type κ) (p : A → Bool) (xs : List A)
    → All P xs
    → All (λ x. P x × (p x ≡ true)) (keep_if p xs)
All-keep_if_both P p [] h = tt
All-keep_if_both P p (x ∷ xs) (now, h) = elim (Bool-cases (p x)) [
  | inl e ↦ rw e ((now, e), All-keep_if_both P p xs h)
  | inr e ↦ rw e (All-keep_if_both P p xs h)
]
